-- ===== src/Config.antt =====
-- pkg/config/loader/configloader.go: the plugins, `buildPreProcessors` and `buildPostProcessors`.
-- `plugin` is the handle's lookup of a plugin by its name.
pub mod Placing
pub mod Instances
pub mod Profiles
pub mod Loading
pub mod Building
use llm_d_inference_payload.Prelude.{
  Bytes, codes, StringSet, Float64, ℤ, Bool, List, [], ◌∷◌, ◌++◌, Option, none, some,
}
use llm_d_inference_payload.Errors.{GoError, Result, ok, err, panic, plain}
use llm_d_inference_payload.Framework.{
  RequestProcessor, ResponseProcessor, ResponseChunkProcessor, ProfilePicker, Scorer,
}
use llm_d_inference_payload.Selector.Register.{Facets}

-- What the assertions to the interfaces find in a plugin: its processors; the parts that a model
-- selector takes; whether it is a `ModelSelectorPlugin`; and what the data layer registers, a
-- collector with its frequency.
pub record Instance ⦃S : StringSet⦄ ⦃N : Float64⦄ (W : Type 0) : Type 0 where
  -- `TypedName().Name`
  pub name : Bytes
  pub request_processor : Option (RequestProcessor W)
  pub response_processor : Option (ResponseProcessor W)
  pub response_headers_processor : Option (ResponseProcessor W)
  pub response_chunk_processor : Option (ResponseChunkProcessor W)
  pub profile_picker : Option (ProfilePicker W)
  pub facets : Facets W
  pub scorer : Option (Scorer W)
  pub is_model_selector : Bool
  pub collector_frequency : Option ℤ
  pub is_extractor : Bool
  pub is_data_source : Bool

abbrev pub to_list : {A : Type 0} → Option A → List A
to_list none = []
to_list (some a) = a ∷ []

module _ ⦃S : StringSet⦄ ⦃N : Float64⦄ {W : Type 0} where
  -- one round of the loop over the pre-processors, with the outcome of the later rounds
  unfoldable pub put_pre_processor :
      Bytes
      → Option (Instance W)
      → Result (List (RequestProcessor W))
      → Result (List (RequestProcessor W))
  put_pre_processor ref none rest = err (
      plain (
        codes "the referenced pre-processor plugin "
        ++ (ref ++ codes " doesn't exist in the configuration")))
  put_pre_processor ref (some p) rest = elim p.request_processor [
    | none ↦
        err (plain (codes "the referenced plugin " ++ (ref ++ codes " is not a RequestProcessor")))
    | some x ↦ elim rest [ ok xs ↦ ok (x ∷ xs) | err e ↦ err e | panic ↦ panic ]
  ]

module _ ⦃S : StringSet⦄ ⦃N : Float64⦄ {W : Type 0} (plugin : Bytes → Option (Instance W)) where
  unfoldable pub build_pre_processors : List Bytes → Result (List (RequestProcessor W))
  build_pre_processors [] = ok []
  build_pre_processors (ref ∷ refs) = put_pre_processor ref (plugin ref) (build_pre_processors refs)

  abbrev pub Lists : Type 0
  Lists = List (ResponseProcessor W) × List (ResponseProcessor W)

  -- one round of the loop over the post-processors, on a plugin that is there, of which the body
  -- and the headers processor are given: those of the loop afterwards
  unfoldable pub place_parts :
      Bytes → Option (ResponseProcessor W) → Option (ResponseProcessor W) → Lists → Result Lists
  place_parts ref body (some h) (bodies, headers) = ok (bodies ++ to_list body, headers ++ (h ∷ []))
  place_parts ref (some b) none (bodies, headers) = ok (bodies ++ (b ∷ []), headers)
  place_parts ref none none (bodies, headers) = err (
      plain (
        codes "the referenced plugin "
        ++ (ref ++ codes " is not a ResponseProcessor nor ResponseHeadersProcessor")))

  unfoldable pub place : Bytes → Lists → Result Lists
  unfolding place_parts
  place ref lists = elim (plugin ref) [
    | none ↦ err (
        plain (
          codes "the referenced post-processor plugin "
          ++ (ref ++ codes " doesn't exist in the configuration")))
    | some p ↦ place_parts ref p.response_processor p.response_headers_processor lists
  ]

  unfoldable pub place_all : List Bytes → Lists → Result Lists
  unfolding place
  place_all [] lists = ok lists
  place_all (ref ∷ refs) lists = elim (place ref lists) [
    | ok lists' ↦ place_all refs lists'
    | err e ↦ err e
    | panic ↦ panic
  ]

  unfoldable pub build_post_processors : List Bytes → Result Lists
  unfolding place_all
  build_post_processors refs = place_all refs ([], [])
