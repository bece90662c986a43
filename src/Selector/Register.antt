-- ===== src/Selector/Register.antt =====
-- pkg/modelselector/model_selector_pipeline.go, `AddPlugins`.
pub mod Spec
pub mod Laws
use llm_d_inference_payload.Prelude.{
  Bytes, codes, StringSet, Float64, ℕ, suc, ◌+◌, ◌≤◌, ltb, leb, Bool, true, false, List, [], ◌∷◌,
  ◌++◌, Option, none, some, if◌then◌else◌, ◌&&◌, ◌||◌, not, ◌≡◌, refl, sym, ap, ◌∙◌, ◌⊎◌, inl, inr,
  arith, append-nil, append_assoc, Option-cases, Bool-cases,
}
use llm_d_inference_payload.Errors.{GoError, Result, ok, err, panic, plain}
use llm_d_inference_payload.Framework.{Filter, Scorer, Picker}
use llm_d_inference_payload.Selector.{WeightedScorer, Pipeline}

abbrev pub already : Bytes → Bytes → GoError
already new old = plain (
    codes "failed to set '"
    ++ (new
        ++ (codes "' as picker, already have a registered picker plugin '" ++ (old ++ codes "'"))))

-- What the assertions to `Filter` and `Picker` find in a plugin, with its typed name.
pub record Facets ⦃S : StringSet⦄ ⦃N : Float64⦄ (W : Type 0) : Type 0 where
  pub typed_name : Bytes
  pub filter : Option (Filter W)
  pub picker : Option (Picker W)

-- A plugin that is a `WeightedScorer`, with the facets of the scorer in it; one that is a scorer
-- without a weight; any other plugin.
pub data PluginObject ⦃S : StringSet⦄ ⦃N : Float64⦄ (W : Type 0) : Type 0 where
  weighted : WeightedScorer W → Facets W → PluginObject W
  unweighted : Facets W → PluginObject W
  other : Facets W → PluginObject W

-- the variables of the loop; the new picker comes with its typed name
pub record Registration ⦃S : StringSet⦄ ⦃N : Float64⦄ (W : Type 0) : Type 0 where
  pub new_filters : List (Filter W)
  pub new_scorers : List (WeightedScorer W)
  pub new_picker : Option (Bytes × Picker W)

module _ ⦃S : StringSet⦄ ⦃N : Float64⦄ {W : Type 0} where
  abbrev pub filters_of : Facets W → List (Filter W)
  filters_of f = elim f.filter [ none ↦ [] | some x ↦ x ∷ [] ]

  -- the assertions to a filter and to a picker; `registered` is the typed name of the pipeline's
  -- own picker, if it has one
  unfoldable pub add_facets : Option Bytes → Facets W → Registration W → Result (Registration W)
  add_facets registered f r =
      let r' = record r { new_filters = r.new_filters ++ filters_of f } in
      elim f.picker [
        | none ↦ ok r'
        | some pick ↦ elim r.new_picker [
          | some (name, p) ↦ err (already f.typed_name name)
          | none ↦ elim registered [
            | some name ↦ err (already f.typed_name name)
            | none ↦ ok (record r' { new_picker = some (f.typed_name, pick) })
          ]
        ]
      ]

  -- one round of the loop
  unfoldable pub add_plugin :
      Option Bytes → PluginObject W → Registration W → Result (Registration W)
  unfolding add_facets
  add_plugin registered (PluginObject.weighted s f) r =
      add_facets registered f (record r { new_scorers = r.new_scorers ++ (s ∷ []) })
  add_plugin registered (PluginObject.unweighted f) r = err (
      plain (
        codes "failed to register scorer '"
        ++ (f.typed_name
            ++ codes "' without a weight. use NewWeightedScorer to register a scorer")))
  add_plugin registered (PluginObject.other f) r = add_facets registered f r

  unfoldable pub add_loop :
      Option Bytes → List (PluginObject W) → Registration W → Result (Registration W)
  add_loop registered [] r = ok r
  add_loop registered (p ∷ ps) r = elim (add_plugin registered p r) [
    | ok r' ↦ add_loop registered ps r'
    | err e ↦ err e
    | panic ↦ panic
  ]

  abbrev pub registered_name : Bytes → Option (Picker W) → Option Bytes
  registered_name name none = none
  registered_name name (some pick) = some name

  -- The pipeline afterwards, and the error; the first argument is the typed name of the pipeline's
  -- picker, if it has one.
  unfoldable pub add_plugins :
      Bytes → Pipeline W → List (PluginObject W) → Pipeline W × Option GoError
  unfolding add_loop
  add_plugins picker_name p plugins =
      elim (add_loop (registered_name picker_name p.picker) plugins
        (record { new_filters = []; new_scorers = []; new_picker = none })) [
          | panic ↦ (p, none)
          | err e ↦ (p, some e)
          | ok r ↦ (
            record {
              filters = p.filters ++ r.new_filters;
              scorers = p.scorers ++ r.new_scorers;
              picker = elim r.new_picker [ none ↦ p.picker | some (name, pick) ↦ some pick ];
            },
            none,
          )
        ]
