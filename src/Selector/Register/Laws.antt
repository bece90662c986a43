-- ===== src/Selector/Register/Laws.antt =====
-- pkg/modelselector/model_selector_pipeline.go, `AddPlugins`: all of the plugins or none.
use llm_d_inference_payload.Prelude.{
  Bytes, StringSet, Float64, ℕ, ◌+◌, ◌≤◌, List, [], ◌∷◌, ◌++◌, Option, none, some, ◌≡◌, refl, sym,
  ap, ◌∙◌, ◌⊎◌, inl, inr, arith, append-nil, append_assoc,
}
use llm_d_inference_payload.Errors.{GoError, Result, ok, err}
use llm_d_inference_payload.Framework.{Filter, Picker}
use llm_d_inference_payload.Selector.{WeightedScorer, Pipeline}
use llm_d_inference_payload.Selector.Register.{
  Facets, PluginObject, Registration, filters_of, add_facets, add_plugin, registered_name, add_loop,
  add_plugins,
}
use llm_d_inference_payload.Selector.Register.Spec.{
  one_if, or_else, facets, HasWeight, scorers_of, all_filters, all_scorers, named, named_picker,
  Admissible,
}

or_else-none : {A : Type 0} (x : Option A) → or_else x none ≡ x
or_else-none none = refl
or_else-none (some a) = refl

or_else_assoc : {A : Type 0} (x y z : Option A) → or_else (or_else x y) z ≡ or_else x (or_else y z)
or_else_assoc none y z = refl
or_else_assoc (some a) y z = refl

one_if_bound : {A : Type 0} (x : Option A) → one_if x + 0 ≤ 1
one_if_bound none = omega arith
one_if_bound (some a) = omega arith

module _ ⦃S : StringSet⦄ ⦃N : Float64⦄ {W : Type 0} where
  abbrev extend : Registration W → List (PluginObject W) → Registration W
  extend r ps = record {
    new_filters = r.new_filters ++ all_filters ps;
    new_scorers = r.new_scorers ++ all_scorers ps;
    new_picker = or_else r.new_picker (named_picker ps);
  }

  -- what the loop does to `r`
  abbrev Outcome : ℕ → List (PluginObject W) → Registration W → Result (Registration W) → Type 0
  Outcome taken ps r x =
      (Admissible taken ps × (x ≡ ok (extend r ps)))
      ⊎ ((Admissible taken ps → ⊥) × ((e : GoError) × (x ≡ err e)))

  -- what the assertions on one plugin do to `r`
  abbrev FacetsOutcome : Option Bytes → Facets W → Registration W → Result (Registration W) → Type 0
  FacetsOutcome registered f r x =
      ((one_if registered + one_if r.new_picker + one_if f.picker ≤ 1)
        × (x
            ≡ ok (record {
              new_filters = r.new_filters ++ filters_of f;
              new_scorers = r.new_scorers;
              new_picker = or_else r.new_picker (named f);
            })))
      ⊎ ((2 ≤ one_if registered + one_if r.new_picker + one_if f.picker)
          × ((e : GoError) × (x ≡ err e)))

  facets_step :
      (registered : Option Bytes) (name : Bytes) (filter : Option (Filter W))
      (picker : Option (Picker W)) (fs : List (Filter W)) (ss : List (WeightedScorer W))
      (np : Option (Bytes × Picker W))
      → one_if registered + one_if np ≤ 1
      → let f : Facets W = record { typed_name = name; filter = filter; picker = picker } in
        let r : Registration W = record { new_filters = fs; new_scorers = ss; new_picker = np } in
        FacetsOutcome registered f r (add_facets registered f r)
  unfolding add_facets
  facets_step registered name filter none fs ss none h = inl (omega arith, refl)
  facets_step registered name filter none fs ss (some x) h = inl (omega arith, refl)
  facets_step registered name filter (some pick) fs ss (some x) h = inr (omega arith, (_, refl))
  facets_step none name filter (some pick) fs ss none h = inl (omega arith, refl)
  facets_step (some x) name filter (some pick) fs ss none h = inr (omega arith, (_, refl))

  with_scorers : Registration W → PluginObject W → Registration W
  with_scorers r p = record r { new_scorers = r.new_scorers ++ scorers_of p }

  add_plugin-facets :
      (registered : Option Bytes) (p : PluginObject W) (r : Registration W)
      → HasWeight p
      → add_plugin registered p r ≡ add_facets registered (facets p) (with_scorers r p)
  unfolding add_plugin with_scorers
  add_plugin-facets registered (PluginObject.weighted s f) r h = refl
  add_plugin-facets registered (PluginObject.unweighted f) r h = absurd h
  add_plugin-facets registered (PluginObject.other f) r h =
      ap (λ x. add_facets registered f (record r { new_scorers = x }))
        (sym (append-nil r.new_scorers))

  one_if-or_else :
      (x : Option (Bytes × Picker W)) (name : Bytes) (filter : Option (Filter W))
      (picker : Option (Picker W))
      → one_if x + one_if picker ≤ 1
      → one_if (or_else x (named (record { typed_name = name; filter = filter; picker = picker })))
        ≡ one_if x + one_if picker
  one_if-or_else none name filter none h = refl
  one_if-or_else none name filter (some p) h = refl
  one_if-or_else (some x) name filter none h = refl
  one_if-or_else (some x) name filter (some p) h = absurd (omega arith)

  extend-nil : (r : Registration W) → r ≡ extend r []
  extend-nil r =
      rw (append-nil r.new_filters, append-nil r.new_scorers, or_else-none r.new_picker) refl

  -- `r` after the plugin `p`
  after : Registration W → PluginObject W → Registration W
  after r p = record {
    new_filters = r.new_filters ++ filters_of (facets p);
    new_scorers = r.new_scorers ++ scorers_of p;
    new_picker = or_else r.new_picker (named (facets p));
  }

  picker_after :
      (r : Registration W) (p : PluginObject W)
      → one_if r.new_picker + one_if (facets p).picker ≤ 1
      → one_if (after r p).new_picker ≡ one_if r.new_picker + one_if (facets p).picker
  unfolding after
  picker_after r p h =
      let f = facets p in one_if-or_else r.new_picker f.typed_name f.filter f.picker h

  extend-after :
      (r : Registration W) (p : PluginObject W) (ps : List (PluginObject W))
      → extend (after r p) ps ≡ extend r (p ∷ ps)
  unfolding after
  extend-after r p ps =
      rw
        (
          append_assoc r.new_filters (filters_of (facets p)) (all_filters ps),
          append_assoc r.new_scorers (scorers_of p) (all_scorers ps),
          or_else_assoc r.new_picker (named (facets p)) (named_picker ps),
        )
        refl

  plugin_step :
      (registered : Option Bytes) (p : PluginObject W) (r : Registration W)
      → HasWeight p
      → one_if registered + one_if r.new_picker ≤ 1
      → ((one_if registered + one_if r.new_picker + one_if (facets p).picker ≤ 1)
          × (add_plugin registered p r ≡ ok (after r p)))
        ⊎ ((2 ≤ one_if registered + one_if r.new_picker + one_if (facets p).picker)
            × ((e : GoError) × (add_plugin registered p r ≡ err e)))
  unfolding after with_scorers
  plugin_step registered p r w h =
      let f = facets p in
      let same = add_plugin-facets registered p r w in
      elim (facets_step registered f.typed_name f.filter f.picker r.new_filters
        (r.new_scorers ++ scorers_of p) r.new_picker h) [
          | inl (b, q) ↦ inl (b, same ∙ q)
          | inr (b, (e, q)) ↦ inr (b, (e, same ∙ q))
        ]

  has_weight : (p : PluginObject W) → HasWeight p ⊎ (HasWeight p → ⊥)
  has_weight (PluginObject.weighted s f) = inl tt
  has_weight (PluginObject.unweighted f) = inr (λ x. x)
  has_weight (PluginObject.other f) = inl tt

  unweighted_fails :
      (registered : Option Bytes) (p : PluginObject W) (r : Registration W)
      → (HasWeight p → ⊥)
      → (e : GoError) × (add_plugin registered p r ≡ err e)
  unfolding add_plugin
  unweighted_fails registered (PluginObject.weighted s f) r h = absurd (h tt)
  unweighted_fails registered (PluginObject.unweighted f) r h = (_, refl)
  unweighted_fails registered (PluginObject.other f) r h = absurd (h tt)

  add_loop-ok :
      (registered : Option Bytes) (p : PluginObject W) (ps : List (PluginObject W))
      (r r' : Registration W)
      → add_plugin registered p r ≡ ok r'
      → add_loop registered (p ∷ ps) r ≡ add_loop registered ps r'
  unfolding add_loop
  add_loop-ok registered p ps r r' q = rw (q, add_loop) refl

  add_loop-err :
      (registered : Option Bytes) (p : PluginObject W) (ps : List (PluginObject W))
      (r : Registration W) (e : GoError)
      → add_plugin registered p r ≡ err e
      → add_loop registered (p ∷ ps) r ≡ err e
  unfolding add_loop
  add_loop-err registered p ps r e q = rw (q, add_loop) refl

  add_loop-Outcome :
      (registered : Option Bytes) (ps : List (PluginObject W)) (r : Registration W)
      → one_if registered + one_if r.new_picker ≤ 1
      → Outcome (one_if registered + one_if r.new_picker) ps r (add_loop registered ps r)
  unfolding add_loop
  add_loop-Outcome registered [] r h = inl ((tt, omega arith), ap ok (extend-nil r))
  add_loop-Outcome registered (p ∷ ps) r h = elim (has_weight p) [
    | inr n ↦
        let (e, q) = unweighted_fails registered p r n in
        inr (λ a. n a.0.0, (e, add_loop-err registered p ps r e q))
    | inl w ↦ elim (plugin_step registered p r w h) [
      | inr (b, (e, q)) ↦ inr (λ a. omega (arith, a.1), (e, add_loop-err registered p ps r e q))
      | inl (b, q) ↦
          let r' = after r p in
          let k = picker_after r p (omega arith) in
          let go = add_loop-ok registered p ps r r' q in
          elim (add_loop-Outcome registered ps r' (omega arith)) [
            | inl (a, q') ↦
                inl (((w, a.0), omega (arith, a.1, k)), go ∙ q' ∙ ap ok (extend-after r p ps))
            | inr (n, (e, q')) ↦ inr (λ a. n (a.0.1, omega (arith, a.1, k)), (e, go ∙ q'))
          ]
    ]
  ]

  one_if-registered :
      (name : Bytes) (picker : Option (Picker W))
      → one_if (registered_name name picker) ≡ one_if picker
  one_if-registered name none = refl
  one_if-registered name (some pick) = refl

  -- `AddPlugins` is all or nothing. If every scorer has a weight and there is at most one picker,
  -- the pipeline's own included, then it succeeds, and all filters and scorers stand, in order,
  -- behind those that were there, and the picker is the one there is; otherwise it fails with an
  -- error and the pipeline is as it was.
  pub add_plugins_all_or_nothing :
      (picker_name : Bytes) (p : Pipeline W) (ps : List (PluginObject W))
      → let (p', failure) = add_plugins picker_name p ps in
        (Admissible (one_if p.picker) ps
          × (failure ≡ none)
          × (p' ≡ record {
            filters = p.filters ++ all_filters ps;
            scorers = p.scorers ++ all_scorers ps;
            picker = elim (named_picker ps) [ none ↦ p.picker | some (name, pick) ↦ some pick ];
          }))
        ⊎ ((Admissible (one_if p.picker) ps → ⊥) × (p' ≡ p) × ((e : GoError) × (failure ≡ some e)))
  unfolding add_plugins
  add_plugins_all_or_nothing picker_name p ps =
      let same = one_if-registered picker_name p.picker in
      let start : Registration W = record {
        new_filters = [];
        new_scorers = [];
        new_picker = none;
      } in
      elim (add_loop-Outcome (registered_name picker_name p.picker) ps start (one_if_bound _)) [
        | inl (a, q) ↦ rw (q, add_plugins) (inl ((a.0, omega (arith, a.1, same)), refl, refl))
        | inr (n, (e, q)) ↦
            rw (q, add_plugins) (inr (λ a. n (a.0, omega (arith, a.1, same)), refl, (e, refl)))
      ]
