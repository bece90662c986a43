-- ===== src/Plugins/ModelGroup.antt =====
-- pkg/framework/plugins/modelselector/filter/modelgroup/filter.go, `Filter`.
use llm_d_inference_payload.Prelude.{
  Bytes, bytes_dec, codes, contains, strip_prefix, StringSet, Float64, Bool, true, false, List, [],
  ◌∷◌, Option, none, some, is_empty, take, if◌then◌else◌, ite, ◌||◌, ◌≡◌, refl, sym, fun_ext, ap,
  Option-cases, Bool-cases, inl, inr,
}
use llm_d_inference_payload.Prelude.Map
use llm_d_inference_payload.Prelude.Map.{Map}
use llm_d_inference_payload.Json.{Value}
use llm_d_inference_payload.DataLayer.{Model, Attribute}
use llm_d_inference_payload.Message.{Message, body_field}
use llm_d_inference_payload.Errors.{ok}
use llm_d_inference_payload.Framework.{Filter}

abbrev pub same : Bytes → Bytes → Bool
same a b = ite (bytes_dec a b) true false

module _ {F : Type 0} where
  -- the assertion to `Groups`, and `Contains`
  unfoldable pub groups_contain : Bytes → Attribute F → Bool
  groups_contain group (Attribute.groups names) = contains group names
  groups_contain group (Attribute.request_count x y) = false
  groups_contain group (Attribute.token_prices x y) = false
  groups_contain group Attribute.other = false

  unfoldable pub in_group : Bytes → Model F → Bool
  unfolding groups_contain
  in_group group m = elim (Map.get bytes_dec (codes "model_groups") m.attributes) [
    | none ↦ false
    | some a ↦ groups_contain group a
  ]

  -- the loop that looks for a name
  unfoldable pub explicit_match : Bytes → List (Model F) → List (Model F)
  explicit_match requested [] = []
  explicit_match requested (m ∷ models) =
      let rest = explicit_match requested models in if same m.name requested then m ∷ [] else rest

  -- the loop over the members of a group
  unfoldable pub group_members : Bytes → List (Model F) → List (Model F)
  unfolding in_group
  group_members group [] = []
  group_members group (m ∷ models) =
      let rest = group_members group models in if in_group group m then m ∷ rest else rest

  -- the rest of `Filter`, once the field is a string
  unfoldable pub filter_requested : Bytes → List (Model F) → List (Model F)
  unfolding explicit_match group_members
  filter_requested requested models =
      if is_empty requested || same requested (codes "auto")
      then models
      else (elim (strip_prefix (codes "auto/") requested) [
        | none ↦ explicit_match requested models
        | some group ↦ if is_empty group then [] else group_members group models
      ])

  unfoldable pub filter_by_model : Option (Value F) → List (Model F) → List (Model F)
  filter_by_model none models = models
  filter_by_model (some Value.null) models = models
  filter_by_model (some (Value.str requested)) models = filter_requested requested models
  filter_by_model (some (Value.bool b)) models = []
  filter_by_model (some (Value.num x)) models = []
  filter_by_model (some (Value.arr xs)) models = []
  filter_by_model (some (Value.obj fs)) models = []

module _ ⦃S : StringSet⦄ ⦃N : Float64⦄ {W : Type 0} where
  unfoldable pub model_group_filter : Filter W
  unfolding filter_by_model
  model_group_filter request models w =
      (request, w, ok (filter_by_model (body_field request (codes "model")) models))

module _ {F : Type 0} where
  -- The models that the field of a request admits, as the documentation of the filter says.
  abbrev pub admits_name : Bytes → Model F → Bool
  admits_name requested m =
      if is_empty requested || same requested (codes "auto")
      then true
      else (elim (strip_prefix (codes "auto/") requested) [
        | none ↦ same m.name requested
        | some group ↦ if is_empty group then false else in_group group m
      ])

  abbrev pub admits : Option (Value F) → Model F → Bool
  admits none m = true
  admits (some Value.null) m = true
  admits (some (Value.str requested)) m = admits_name requested m
  admits (some (Value.bool b)) m = false
  admits (some (Value.num x)) m = false
  admits (some (Value.arr xs)) m = false
  admits (some (Value.obj fs)) m = false

  -- whether the field names one model
  abbrev pub explicit : Option (Value F) → Bool
  explicit none = false
  explicit (some Value.null) = false
  explicit (some (Value.bool b)) = false
  explicit (some (Value.num x)) = false
  explicit (some (Value.arr xs)) = false
  explicit (some (Value.obj fs)) = false
  explicit (some (Value.str requested)) =
      if is_empty requested || same requested (codes "auto")
      then false
      else (elim (strip_prefix (codes "auto/") requested) [ none ↦ true | some group ↦ false ])

  unfoldable pub keep : (Model F → Bool) → List (Model F) → List (Model F)
  keep p [] = []
  keep p (m ∷ models) = let rest = keep p models in if p m then m ∷ rest else rest

  keep_all : (models : List (Model F)) → keep (λ m. true) models ≡ models
  unfolding keep
  keep_all [] = refl
  keep_all (m ∷ models) = ap (m ∷◌) (keep_all models)

  keep_none : (models : List (Model F)) → keep (λ m. false) models ≡ []
  unfolding keep
  keep_none [] = refl
  keep_none (m ∷ models) = keep_none models

  explicit_match-keep :
      (requested : Bytes) (models : List (Model F))
      → explicit_match requested models ≡ take 1 (keep (λ m. same m.name requested) models)
  unfolding explicit_match keep
  explicit_match-keep requested [] = refl
  explicit_match-keep requested (m ∷ models) = elim (Bool-cases (same m.name requested)) [
    | inl e ↦ rw e refl
    | inr e ↦ rw e (explicit_match-keep requested models)
  ]

  group_members-keep :
      (group : Bytes) (models : List (Model F))
      → group_members group models ≡ keep (in_group group) models
  unfolding group_members keep
  group_members-keep group [] = refl
  group_members-keep group (m ∷ models) = elim (Bool-cases (in_group group m)) [
    | inl e ↦ rw e (ap (m ∷◌) (group_members-keep group models))
    | inr e ↦ rw e (group_members-keep group models)
  ]

  admits_as :
      (requested : Bytes) (p : Model F → Bool)
      → ((m : Model F) → admits_name requested m ≡ p m)
      → admits_name requested ≡ p
  admits_as requested p h = fun_ext h

  filter_requested-keep :
      (requested : Bytes) (models : List (Model F))
      → filter_requested requested models ≡ (
          let kept = keep (admits_name requested) models in
          if explicit (some (Value.str requested)) then take 1 kept else kept)
  unfolding filter_requested
  filter_requested-keep requested models =
      elim (Bool-cases (is_empty requested || same requested (codes "auto"))) [
        | inl e ↦ rw (e, admits_as requested (λ m. true) (λ m. rw e refl)) (sym (keep_all models))
        | inr e ↦ elim (Option-cases (strip_prefix (codes "auto/") requested)) [
          | inl f ↦
              rw
                (
                  e,
                  f,
                  filter_requested,
                  admits_as requested (λ m. same m.name requested) (λ m. rw (e, f) refl),
                )
                (explicit_match-keep requested models)
          | inr (group, f) ↦ elim (Bool-cases (is_empty group)) [
            | inl g ↦
                rw
                  (
                    e,
                    f,
                    g,
                    filter_requested,
                    admits_as requested (λ m. false) (λ m. rw (e, f, g) refl),
                  )
                  (sym (keep_none models))
            | inr g ↦
                rw
                  (
                    e,
                    f,
                    g,
                    filter_requested,
                    admits_as requested (in_group group) (λ m. rw (e, f, g) refl),
                  )
                  (group_members-keep group models)
          ]
        ]
      ]

  filter_by_model-keep :
      (field : Option (Value F)) (models : List (Model F))
      → filter_by_model field models ≡ (
          if explicit field
          then take 1 (keep (admits field) models)
          else keep (admits field) models)
  unfolding filter_by_model
  filter_by_model-keep none models = sym (keep_all models)
  filter_by_model-keep (some Value.null) models = sym (keep_all models)
  filter_by_model-keep (some (Value.str requested)) models = filter_requested-keep requested models
  filter_by_model-keep (some (Value.bool b)) models = sym (keep_none models)
  filter_by_model-keep (some (Value.num x)) models = sym (keep_none models)
  filter_by_model-keep (some (Value.arr xs)) models = sym (keep_none models)
  filter_by_model-keep (some (Value.obj fs)) models = sym (keep_none models)

-- The filter keeps, in their order, exactly the candidates that the "model" field of the body
-- admits (all of them for no field, an empty one or "auto", the members of a group for "auto/" and
-- its name, those of the name otherwise, none for a field of another type), and for a field that is
-- a name only the first of them; it changes neither the request nor the state.
pub model_group_filter-keep :
    ⦃S : StringSet⦄ ⦃N : Float64⦄ {W : Type 0} (request : Message (Value N.F))
    (models : List (Model N.F)) (w : W)
    → let field = body_field request (codes "model") in
      let kept = keep (admits field) models in
      model_group_filter request models w
      ≡ (request, w, ok (if explicit field then take 1 kept else kept))
unfolding model_group_filter
model_group_filter-keep request models w =
    ap (λ x. (request, w, ok x)) (filter_by_model-keep (body_field request (codes "model")) models)
