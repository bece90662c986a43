-- ===== src/Config/Profiles.antt =====
-- pkg/config/loader/configloader.go, `buildProfiles`. `plugin` is the handle's lookup.
pub mod Laws
use llm_d_inference_payload.Prelude.{
  Bytes, bytes_dec, codes, StringSet, Float64, Bool, true, false, not, ◌&&◌, List, [], ◌∷◌, ◌++◌,
  Option, none, some, is_empty, if◌then◌else◌,
}
use llm_d_inference_payload.Prelude.Map
use llm_d_inference_payload.Prelude.Map.{Map}
use llm_d_inference_payload.Errors.{GoError, Result, ok, err, panic, plain, ◌>>=◌}
use llm_d_inference_payload.Framework.{Profile, RequestProcessor, new_profile}
use llm_d_inference_payload.Selector.Register.{PluginObject}
use llm_d_inference_payload.Config.{Instance}
use llm_d_inference_payload.Config.Instances.{PluginRef, ProfilePlugins, RawProfile}

-- A built profile: the part that requests see, the plugins for its model selectors, and the names
-- of its request plugins that are model selectors.
pub record BuiltProfile ⦃S : StringSet⦄ ⦃N : Float64⦄ (W : Type 0) : Type 0 where
  pub profile : Profile W
  pub model_selector_plugins : List (PluginObject W)
  pub model_selectors : List Bytes

-- the dash of a text, in UTF-8
abbrev pub em_dash : Bytes
em_dash = 226 ∷ 128 ∷ 148 ∷ []

abbrev pub no_plugin : Bytes → GoError
no_plugin ref = plain (codes "there is no plugin named " ++ ref)

module _ ⦃S : StringSet⦄ ⦃N : Float64⦄ {W : Type 0} where
  -- the plugin for a model selector
  unfoldable pub selector_object : PluginRef N.F → Instance W → Result (PluginObject W)
  selector_object ref p = elim p.scorer [
    | some scorer ↦ elim ref.weight [
      | none ↦ err (plain (codes "scorer \"" ++ (ref.plugin_ref ++ codes "\" requires a weight")))
      | some weight ↦
          ok (PluginObject.weighted (record { scorer = scorer; weight = weight }) p.facets)
    ]
    | none ↦ elim p.facets.filter [
      | some _ ↦ ok (PluginObject.other p.facets)
      | none ↦ elim p.facets.picker [
        | some _ ↦ ok (PluginObject.other p.facets)
        | none ↦ err (
            plain (
              codes "plugin \""
              ++ (ref.plugin_ref
                  ++ codes "\" is not a RequestProcessor, Filter, Scorer, or Picker")))
      ]
    ]
  ]

  -- one round of the loop over the request plugins, on the plugin that the reference gives
  unfoldable pub place_request :
      PluginRef N.F → Option (Instance W) → BuiltProfile W → Result (BuiltProfile W)
  unfolding selector_object
  place_request ref none b = err (no_plugin ref.plugin_ref)
  place_request ref (some p) b = elim p.request_processor [
    | some x ↦ ok (record {
      profile = record (b.profile) { request_plugins = b.profile.request_plugins ++ (x ∷ []) };
      model_selector_plugins = b.model_selector_plugins;
      model_selectors =
          b.model_selectors ++ (if p.is_model_selector then ref.plugin_ref ∷ [] else []);
    })
    | none ↦ elim (selector_object ref p) [
      | ok o ↦ ok (record b { model_selector_plugins = b.model_selector_plugins ++ (o ∷ []) })
      | err e ↦ err e
      | panic ↦ panic
    ]
  ]

  -- and over the response plugins
  unfoldable pub place_response :
      PluginRef N.F → Option (Instance W) → BuiltProfile W → Result (BuiltProfile W)
  place_response ref none b = err (no_plugin ref.plugin_ref)
  place_response ref (some p) b = elim p.response_processor [
    | some x ↦ ok (record b {
      profile = record (b.profile) { response_plugins = b.profile.response_plugins ++ (x ∷ []) };
    })
    | none ↦ elim p.response_chunk_processor [
      | some x ↦ ok (record b {
        profile = record (b.profile) {
          response_chunk_processors = b.profile.response_chunk_processors ++ (x ∷ []);
        };
      })
      | none ↦ err (
          plain (
            codes "the plugin named "
            ++ (ref.plugin_ref ++ codes " is not a ResponseProcessor nor ResponseChunkProcessor")))
    ]
  ]

  -- the check after the loops, and the flag
  unfoldable pub finish_profile : Bytes → BuiltProfile W → Result (BuiltProfile W)
  finish_profile name b =
      if not (is_empty b.profile.response_plugins)
        && not (is_empty b.profile.response_chunk_processors)
      then err (
          plain (
            codes "profile "
            ++ (name
                ++ (codes " mixes ResponseProcessor and ResponseChunkProcessor plugins "
                    ++ (em_dash ++ codes " a profile must use one type exclusively")))))
      else ok (record b {
        profile = record (b.profile) {
          needs_response_buffering = not (is_empty b.profile.response_plugins);
        };
      })

  abbrev pub no_plugins : BuiltProfile W
  no_plugins = record { profile = new_profile; model_selector_plugins = []; model_selectors = [] }

module _ ⦃S : StringSet⦄ ⦃N : Float64⦄ {W : Type 0} (plugin : Bytes → Option (Instance W)) where
  unfoldable pub place_requests : List (PluginRef N.F) → BuiltProfile W → Result (BuiltProfile W)
  place_requests [] b = ok b
  place_requests (ref ∷ refs) b =
      place_request ref (plugin ref.plugin_ref) b >>= place_requests refs

  unfoldable pub place_responses : List (PluginRef N.F) → BuiltProfile W → Result (BuiltProfile W)
  place_responses [] b = ok b
  place_responses (ref ∷ refs) b =
      place_response ref (plugin ref.plugin_ref) b >>= place_responses refs

  -- the body of the loop over the profiles, on a profile with a name
  unfoldable pub build_sections : Bytes → Option (ProfilePlugins N.F) → Result (BuiltProfile W)
  unfolding place_requests place_responses finish_profile
  build_sections name none =
      err (plain (codes "the profile " ++ (name ++ codes " must have a Plugins section")))
  build_sections name (some plugins) =
      if is_empty plugins.request && is_empty plugins.response
      then err (
          plain (
            codes "the profile "
            ++ (name ++ codes " must have one or both of the Request and Response sections")))
      else (place_requests plugins.request no_plugins
          >>= place_responses plugins.response
          >>= finish_profile name)

  unfoldable pub build_profile : RawProfile N.F → Result (BuiltProfile W)
  unfolding build_sections
  build_profile raw =
      if is_empty raw.name
      then err (plain (codes "a profile was specified without a name"))
      else build_sections raw.name raw.plugins

  unfoldable pub build_profile_loop :
      List (RawProfile N.F) → Map Bytes (BuiltProfile W) → Result (Map Bytes (BuiltProfile W))
  unfolding build_profile
  build_profile_loop [] profiles = ok profiles
  build_profile_loop (raw ∷ raws) profiles =
      build_profile raw >>= λ b. build_profile_loop raws (Map.put bytes_dec raw.name b profiles)

  unfoldable pub build_profiles : List (RawProfile N.F) → Result (Map Bytes (BuiltProfile W))
  unfolding build_profile_loop
  build_profiles [] = err (plain (codes "at least one profile must be specified"))
  build_profiles (raw ∷ raws) = build_profile_loop (raw ∷ raws) []
