-- ===== src/Selector/Entries.antt =====
-- pkg/modelselector: the entries of the scores.
use llm_d_inference_payload.Prelude.{
  Bytes, bytes_dec, StringSet, Float64, List, [], ◌∷◌, All, Any, All-self, ◌≡◌, refl, subst, inl,
  inr, Option-cases,
}
use llm_d_inference_payload.Prelude.Map
use llm_d_inference_payload.Prelude.Map.{Map}
use llm_d_inference_payload.DataLayer.{Model}
use llm_d_inference_payload.Errors.{Result, ok, err, panic}
use llm_d_inference_payload.Errors.Cases.{Result-cases}
use llm_d_inference_payload.Framework.{InferenceRequest, ScoredModel}
use llm_d_inference_payload.Selector.{
  WeightedScorer, add_score, add_scores, enter_models, run_scorers, values, run_scorer_plugins,
}

module _ ⦃N : Float64⦄ where
  module _ (models : List (Model N.F)) where
    -- an entry of the scores: filed under its model's name, and its model is one of the candidates
    abbrev pub IsEntry : Bytes × ScoredModel N.F → Type 0
    IsEntry e = (e.0 ≡ e.1.model.name) × Any (λ m. m ≡ e.1.model) models

    pub record WellScored (scored : Map Bytes (ScoredModel N.F)) : Type 0 where
      pub entries : All IsEntry scored
      pub nodup : Map.NodupKeys bytes_dec scored

    add_score-WellScored :
        (weight : N.F) (m : Model N.F) (s : N.F) (scored : Map Bytes (ScoredModel N.F))
        → WellScored scored
        → WellScored (add_score weight m s scored)
    unfolding add_score
    add_score-WellScored weight m s scored h =
        elim (Option-cases (Map.get bytes_dec m.name scored)) [
          | inl e ↦ rw (e, add_score) h
          | inr (sm, e) ↦
              rw (e, add_score)
                (record {
                  entries =
                      Map.All-put bytes_dec IsEntry m.name _ scored
                        (Map.All-get bytes_dec IsEntry m.name scored h.entries e) h.entries;
                  nodup = Map.put-NodupKeys bytes_dec m.name _ scored h.nodup;
                })
        ]

    add_scores-WellScored :
        (weight : N.F) (scores : List (Model N.F × N.F)) (scored : Map Bytes (ScoredModel N.F))
        → WellScored scored
        → WellScored (add_scores weight scores scored)
    unfolding add_scores
    add_scores-WellScored weight [] scored h = h
    add_scores-WellScored weight ((m, s) ∷ scores) scored h =
        add_scores-WellScored weight scores (add_score weight m s scored)
          (add_score-WellScored weight m s scored h)

    enter_models-WellScored :
        (ms : List (Model N.F)) (scored : Map Bytes (ScoredModel N.F))
        → All (λ y. Any (λ m. m ≡ y) models) ms
        → WellScored scored
        → WellScored (enter_models ms scored)
    unfolding enter_models
    enter_models-WellScored [] scored own h = h
    enter_models-WellScored (m ∷ ms) scored own h = enter_models-WellScored ms _ own.1 (record {
      entries = Map.All-put bytes_dec IsEntry m.name _ scored (refl, own.0) h.entries;
      nodup = Map.put-NodupKeys bytes_dec m.name _ scored h.nodup;
    })

  pub All-values :
      (P : ScoredModel N.F → Type 0) (m : Map Bytes (ScoredModel N.F))
      → All (λ e. P e.1) m
      → All P (values m)
  unfolding values
  All-values P [] h = tt
  All-values P ((k, sm) ∷ m) h = (h.0, All-values P m h.1)

  pub values-All :
      (P : ScoredModel N.F → Type 0) (m : Map Bytes (ScoredModel N.F))
      → All P (values m)
      → All (λ e. P e.1) m
  unfolding values
  values-All P [] h = tt
  values-All P ((k, sm) ∷ m) h = (h.0, values-All P m h.1)

-- what a call returns, if it returns, has `P`
abbrev OnOk : {A : Type 0} → (A → Type 0) → Result A → Type 0
OnOk P (ok a) = P a
OnOk P (err e) = Unit
OnOk P panic = Unit

module _ ⦃S : StringSet⦄ ⦃N : Float64⦄ {W : Type 0} where
  run_scorers-WellScored :
      (models : List (Model N.F)) (ss : List (WeightedScorer W)) (request : InferenceRequest)
      (ms : List (Model N.F)) (scored : Map Bytes (ScoredModel N.F)) (w : W)
      → WellScored models scored
      → OnOk (WellScored models) (run_scorers ss request ms scored w).2
  unfolding run_scorers
  run_scorers-WellScored models [] request ms scored w h = h
  run_scorers-WellScored models (s ∷ ss) request ms scored w h =
      let (request', w', result) = s.scorer request ms w in
      elim (Result-cases result) [
        | inl (scores, e) ↦ rw e (
            run_scorers-WellScored models ss request' ms _ w'
              (add_scores-WellScored models s.weight scores scored h))
        | inr (inl (x, e)) ↦ rw e tt
        | inr (inr e) ↦ rw e tt
      ]

  pub run_scorer_plugins-WellScored :
      (ss : List (WeightedScorer W)) (request : InferenceRequest) (models : List (Model N.F))
      (w : W) (scored : Map Bytes (ScoredModel N.F))
      → (run_scorer_plugins ss request models w).2 ≡ ok scored
      → WellScored models scored
  unfolding run_scorer_plugins
  run_scorer_plugins-WellScored ss request models w scored e = subst (OnOk (WellScored models)) e (
      run_scorers-WellScored models ss request models (enter_models models []) w (
        enter_models-WellScored models models [] (All-self models)
          (record { entries = tt; nodup = tt })))
