-- ===== src/Selector/Register/Spec.antt =====
-- pkg/modelselector/model_selector_pipeline.go, `AddPlugins`: what a list of plugins adds, and
-- when.
use llm_d_inference_payload.Prelude.{
  Bytes, StringSet, Float64, ℕ, ◌+◌, ◌≤◌, List, [], ◌∷◌, ◌++◌, Option, none, some, All,
}
use llm_d_inference_payload.Framework.{Filter, Picker}
use llm_d_inference_payload.Selector.{WeightedScorer}
use llm_d_inference_payload.Selector.Register.{Facets, PluginObject, filters_of}

-- one for a thing that is there
abbrev pub one_if : {A : Type 0} → Option A → ℕ
one_if none = 0
one_if (some a) = 1

abbrev pub or_else : {A : Type 0} → Option A → Option A → Option A
or_else none b = b
or_else (some a) b = some a

module _ ⦃S : StringSet⦄ ⦃N : Float64⦄ {W : Type 0} where
  abbrev pub facets : PluginObject W → Facets W
  facets (PluginObject.weighted s f) = f
  facets (PluginObject.unweighted f) = f
  facets (PluginObject.other f) = f

  -- no scorer comes without a weight
  abbrev pub HasWeight : PluginObject W → Type 0
  HasWeight (PluginObject.weighted s f) = Unit
  HasWeight (PluginObject.unweighted f) = ⊥
  HasWeight (PluginObject.other f) = Unit

  abbrev pub scorers_of : PluginObject W → List (WeightedScorer W)
  scorers_of (PluginObject.weighted s f) = s ∷ []
  scorers_of (PluginObject.unweighted f) = []
  scorers_of (PluginObject.other f) = []

  abbrev pub count_pickers : List (PluginObject W) → ℕ
  count_pickers [] = 0
  count_pickers (p ∷ ps) = one_if (facets p).picker + count_pickers ps

  abbrev pub all_filters : List (PluginObject W) → List (Filter W)
  all_filters [] = []
  all_filters (p ∷ ps) = filters_of (facets p) ++ all_filters ps

  abbrev pub all_scorers : List (PluginObject W) → List (WeightedScorer W)
  all_scorers [] = []
  all_scorers (p ∷ ps) = scorers_of p ++ all_scorers ps

  abbrev pub named : Facets W → Option (Bytes × Picker W)
  named f = elim f.picker [ none ↦ none | some pick ↦ some (f.typed_name, pick) ]

  -- the first picker, with its name
  abbrev pub named_picker : List (PluginObject W) → Option (Bytes × Picker W)
  named_picker [] = none
  named_picker (p ∷ ps) = or_else (named (facets p)) (named_picker ps)

  -- Every scorer has a weight, and there is at most one picker, the registered one included.
  abbrev pub Admissible : ℕ → List (PluginObject W) → Type 0
  Admissible taken ps = All HasWeight ps × (taken + count_pickers ps ≤ 1)
