-- ===== src/Selector/Choice.antt =====
-- pkg/modelselector with the max-score picker: what `Select` returns.
use llm_d_inference_payload.Prelude.{
  Bytes, bytes_dec, codes, StringSet, Float64, ℕ, List, [], ◌∷◌, some, All, Any, All-weaken,
  All-both, ◌≡◌, refl, arith, sym, ap, subst, ◌∙◌, ◌⊎◌, inl, inr, false, ◌≢◌, is_empty,
  if◌then◌else◌,
}
use llm_d_inference_payload.Prelude.Map
use llm_d_inference_payload.Prelude.Map.{Map}
use llm_d_inference_payload.DataLayer.{Model}
use llm_d_inference_payload.Errors.{GoError, Result, ok, err, panic, coded, resource_exhausted}
use llm_d_inference_payload.Errors.Cases.{Result-cases, ok_inj}
use llm_d_inference_payload.Framework.{InferenceRequest, ScoredModel, Filter, Outcome, proceed}
use llm_d_inference_payload.Pickers.{max_score_pick}
use llm_d_inference_payload.Pickers.MaxScore.{IsBest, IsNumber, max_score_pick-IsBest}
use llm_d_inference_payload.Pickers.Sorting.{StableSort}
use llm_d_inference_payload.Selector.Scoring.{
  last_named_first, read, scored_at, total, get-run_scorer_plugins,
}
use llm_d_inference_payload.Selector.{
  WeightedScorer, Pipeline, values, run_filter_plugins, run_scorer_plugins, run_picker_plugin, run,
  select,
}
use llm_d_inference_payload.Selector.Entries.{
  WellScored, All-values, values-All, run_scorer_plugins-WellScored,
}

-- a call that fails, whose failure is that of the second one
abbrev pub FailsAs : {A B : Type 0} → Result A → Result B → Type 0
FailsAs (ok a) r = ⊥
FailsAs (err e) r = r ≡ err e
FailsAs panic r = r ≡ panic

module _ ⦃S : StringSet⦄ ⦃N : Float64⦄ {W : Type 0} where
  module _ (swaps : ℕ → W → List (ℕ × ℕ) × W) (sorting : StableSort) where
    -- the best entry: it is filed under its model's name, its model is a candidate, and no entry
    -- scores strictly higher
    pub record Chosen (models : List (Model N.F)) (scored : Map Bytes (ScoredModel N.F))
        (best : ScoredModel N.F) : Type 0 where
      pub filed : Map.get bytes_dec best.model.name scored ≡ some best
      pub candidate : Any (λ m. m ≡ best.model) models
      pub highest :
          (k : Bytes) (sm : ScoredModel N.F)
          → Map.get bytes_dec k scored ≡ some sm
          → N.lt best.score sm.score ≡ false

    Any-All :
        {A : Type 0} (P : A → Type 0) (xs : List A) (x : A) → Any (λ y. y ≡ x) xs → All P xs → P x
    Any-All P [] x a h = absurd a
    Any-All P (y ∷ ys) x (inl e) h = rw (← e) h.0
    Any-All P (y ∷ ys) x (inr a) h = Any-All P ys x a h.1

    filed_entries :
        {models : List (Model N.F)} (scored : Map Bytes (ScoredModel N.F))
        → WellScored models scored
        → All (λ e. Map.get bytes_dec e.1.model.name scored ≡ some e.1) scored
    filed_entries scored h =
        All-both (λ e i g. subst (λ k. Map.get bytes_dec k scored ≡ some e.1) i.0 g) scored
          h.entries (Map.get_self bytes_dec scored h.nodup)

    IsBest-Chosen :
        (models : List (Model N.F)) (scored : Map Bytes (ScoredModel N.F)) (best : ScoredModel N.F)
        → WellScored models scored
        → IsBest (values scored) best
        → Chosen models scored best
    IsBest-Chosen models scored best h b = record {
      filed =
          Any-All (λ sm. Map.get bytes_dec sm.model.name scored ≡ some sm) (values scored) best b.0
            (All-values _ scored (filed_entries scored h));
      candidate =
          Any-All (λ sm. Any (λ m. m ≡ sm.model) models) (values scored) best b.0
            (All-values _ scored (All-weaken (λ e i. i.1) scored h.entries));
      highest = λ k sm e.
          Map.All-get bytes_dec (λ e. N.lt best.score e.1.score ≡ false) k scored
            (values-All _ scored b.1) e;
    }

    values-ne-nil :
        (k : Bytes) (sm : ScoredModel N.F) (scored : Map Bytes (ScoredModel N.F))
        → Map.get bytes_dec k scored ≡ some sm
        → values scored ≢ []
    unfolding values
    values-ne-nil k sm [] e q = unfold Map.get in cc
    values-ne-nil k sm (s ∷ scored) e q = cc

    pick-Chosen :
        (models : List (Model N.F)) (scored : Map Bytes (ScoredModel N.F)) (w : W)
        → All IsNumber (values scored)
        → WellScored models scored
        → values scored ≢ []
        → (best : ScoredModel N.F) × Chosen models scored best
          × ((run_picker_plugin (some (max_score_pick swaps sorting)) scored w).0 ≡ ok best.model)
    unfolding run_picker_plugin
    pick-Chosen models scored w numbers h ne =
        elim (max_score_pick-IsBest swaps sorting (values scored) w numbers) [
          | inl (e, _) ↦ absurd (ne e)
          | inr (best, b, e) ↦
              (best, IsBest-Chosen models scored best h b, rw (e, run_picker_plugin))
        ]

    entered_as :
        (k : Bytes) (y : Model N.F) (scored : Map Bytes (ScoredModel N.F)) (sum : Result N.F)
        → read (Map.get bytes_dec k) (ok scored) ≡ read (scored_at (some y)) sum
        → values scored ≢ []
    entered_as k y scored (ok x) h = values-ne-nil k _ scored (ok_inj h)
    entered_as k y scored (err e) h = absurd (ground arith)
    entered_as k y scored panic h = absurd (ground arith)

    entered :
        (ss : List (WeightedScorer W)) (request : InferenceRequest) (m : Model N.F)
        (ms : List (Model N.F)) (w : W) (scored : Map Bytes (ScoredModel N.F))
        → (run_scorer_plugins ss request (m ∷ ms) w).2 ≡ ok scored
        → values scored ≢ []
    entered ss request m ms w scored e =
        let (last, named) = last_named_first m ms in
        let sum = (total m.name ss request (m ∷ ms) w N.zero_f).2 in
        entered_as m.name last scored sum (
          ap (read (Map.get bytes_dec m.name)) (sym e)
          ∙ ap (λ o. o.2) (get-run_scorer_plugins ss request (m ∷ ms) w m.name)
          ∙ ap (λ found. read (scored_at found) sum) named)

    abbrev no_models : GoError
    no_models = coded resource_exhausted (codes "no models available after filtering")

    abbrev pub max_score_pipeline : List (Filter W) → List (WeightedScorer W) → Pipeline W
    max_score_pipeline fs ss = record {
      filters = fs;
      scorers = ss;
      picker = some (max_score_pick swaps sorting);
    }

    -- how a selection ends, from what the filters and the scorers return
    abbrev pub Ends :
        List (WeightedScorer W)
        → InferenceRequest × W × Result (List (Model N.F))
        → Result (Model N.F)
        → Type 0
    Ends ss (request, w, filtered) outcome =
        FailsAs filtered outcome
        ⊎ ((filtered ≡ ok []) × (outcome ≡ err no_models))
        ⊎ ((models : List (Model N.F)) × (filtered ≡ ok models)
            × (FailsAs (run_scorer_plugins ss request models w).2 outcome
                ⊎ ((scored : Map Bytes (ScoredModel N.F)) × ((run_scorer_plugins ss request models
                        w).2
                      ≡ ok scored)
                    × ((best : ScoredModel N.F) × Chosen models scored best
                        × (outcome ≡ ok best.model)))))

    -- what follows the scorers in `run`
    abbrev after_scorers : Outcome W (Map Bytes (ScoredModel N.F)) → Outcome W (Model N.F)
    after_scorers (request, w, scores) = proceed scores request w (λ scored.
        let (target, w') = run_picker_plugin (some (max_score_pick swaps sorting)) scored w in
        (request, w', target))

    after_scorers-Ends :
        (ss : List (WeightedScorer W)) (request : InferenceRequest) (m : Model N.F)
        (ms : List (Model N.F)) (w : W)
        → ((scored : Map Bytes (ScoredModel N.F))
            → (run_scorer_plugins ss request (m ∷ ms) w).2 ≡ ok scored
            → All IsNumber (values scored))
        → Ends ss
            (request, w, ok (m ∷ ms))
            (after_scorers (run_scorer_plugins ss request (m ∷ ms) w)).2
    after_scorers-Ends ss request m ms w numbers =
        let (request', w', scores) = run_scorer_plugins ss request (m ∷ ms) w in
        elim (Result-cases scores) [
          | inl (scored, e) ↦
              let picked =
                pick-Chosen (m ∷ ms) scored w' (numbers scored e)
                  (run_scorer_plugins-WellScored ss request (m ∷ ms) w scored e)
                  (entered ss request m ms w scored e) in
              rw e (inr (inr (m ∷ ms, refl, inr (scored, e, picked))))
          | inr (inl (x, e)) ↦ rw e (inr (inr (m ∷ ms, refl, inl (rw e refl))))
          | inr (inr e) ↦ rw e (inr (inr (m ∷ ms, refl, inl (rw e refl))))
        ]

    after_filters-Ends :
        (ss : List (WeightedScorer W)) (request : InferenceRequest) (models : List (Model N.F))
        (w : W)
        → ((scored : Map Bytes (ScoredModel N.F))
            → (run_scorer_plugins ss request models w).2 ≡ ok scored
            → All IsNumber (values scored))
        → Ends ss
            (request, w, ok models)
            (if is_empty models
              then (request, w, err no_models)
              else after_scorers (run_scorer_plugins ss request models w)).2
    after_filters-Ends ss request [] w numbers = inr (inl (refl, refl))
    after_filters-Ends ss request (m ∷ ms) w numbers = after_scorers-Ends ss request m ms w numbers

    -- With the max-score picker, what `Select` of at least one candidate returns, whatever the
    -- shuffle, if no score is NaN. If a filter or a scorer panics, so does `Select`. If the filters
    -- leave no candidate, the error is the coded one that is answered as HTTP 429. Otherwise the
    -- picker does not panic, and `Select` returns the model of an entry of the scores of the
    -- candidates that the filters leave: that model is one of them, and no entry scores strictly
    -- higher. The sort of the picker rearranges, and sorts by a strict weak order.
    pub select-Chosen :
        (fs : List (Filter W)) (ss : List (WeightedScorer W)) (request : InferenceRequest)
        (c : Model N.F) (cs : List (Model N.F)) (w : W)
        → ((models : List (Model N.F)) (scored : Map Bytes (ScoredModel N.F))
            → let (request', w', filtered) = run_filter_plugins fs request (c ∷ cs) w in
              filtered ≡ ok models
              → (run_scorer_plugins ss request' models w').2 ≡ ok scored
              → All IsNumber (values scored))
        → Ends ss
            (run_filter_plugins fs request (c ∷ cs) w)
            (select (max_score_pipeline fs ss) request (c ∷ cs) w).2
    unfolding select run
    select-Chosen fs ss request c cs w numbers =
        let (request', w', filtered) = run_filter_plugins fs request (c ∷ cs) w in
        elim (Result-cases filtered) [
          | inl (models, e) ↦
              let ends =
                after_filters-Ends ss request' models w' (λ scored q. numbers models scored e q) in
              rw e ends
          | inr (inl (x, e)) ↦ rw e (inl refl)
          | inr (inr e) ↦ rw e (inl refl)
        ]
