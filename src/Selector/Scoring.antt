-- ===== src/Selector/Scoring.antt =====
-- pkg/modelselector/model_selector_pipeline.go: the scores.
use llm_d_inference_payload.Prelude.{
  Bytes, bytes_dec, StringSet, Float64, List, [], ◌∷◌, Option, none, some, ite, if_pos, if_neg, ◌≡◌,
  refl, arith, Option-cases, inl, inr, ap,
}
use llm_d_inference_payload.Prelude.Map
use llm_d_inference_payload.Prelude.Map.{Map}
use llm_d_inference_payload.DataLayer.{Model}
use llm_d_inference_payload.Framework.{InferenceRequest, Outcome, ScoredModel, proceed}
use llm_d_inference_payload.Errors.{Result, ok, err, panic}
use llm_d_inference_payload.Errors.Cases.{Result-cases}
use llm_d_inference_payload.Selector.{
  enforce_score_range, add_score, add_scores, enter_models, run_scorers, run_scorer_plugins,
  WeightedScorer,
}

module _ ⦃N : Float64⦄ where
  -- what the entries of one scorer under a name add to a score
  unfoldable pub tally : Bytes → N.F → List (Model N.F × N.F) → N.F → N.F
  tally k weight [] acc = acc
  tally k weight ((m, s) ∷ scores) acc =
      tally k weight scores
        (ite (bytes_dec m.name k) (N.add acc (N.mul (enforce_score_range s) weight)) acc)

  abbrev with_score : ScoredModel N.F → N.F → ScoredModel N.F
  with_score sm x = record sm { score = x }

  module _ (k : Bytes) (weight : N.F) where
    add_score_hit :
        (m : Model N.F) (s : N.F) (scored : Map Bytes (ScoredModel N.F)) (sm : ScoredModel N.F)
        → Map.get bytes_dec k scored ≡ some sm
        → Map.get bytes_dec k (add_score weight m s scored)
          ≡ some (with_score sm (tally k weight ((m, s) ∷ []) sm.score))
    unfolding add_score tally
    add_score_hit m s scored sm h = elim (bytes_dec m.name k) [
      | yes p ↦
          let hit : Map.get bytes_dec m.name scored ≡ some sm = rw p h in
          rw (hit, add_score, Map.get-put, if_pos _ p, if_pos _ p)
      | no p ↦ elim (Option-cases (Map.get bytes_dec m.name scored)) [
        | inl e ↦ rw (e, add_score, if_neg _ p) h
        | inr (other, e) ↦ rw (e, add_score, Map.get-put, if_neg _ p, if_neg _ p) h
      ]
    ]

    add_score_miss :
        (m : Model N.F) (s : N.F) (scored : Map Bytes (ScoredModel N.F))
        → Map.get bytes_dec k scored ≡ none
        → Map.get bytes_dec k (add_score weight m s scored) ≡ none
    unfolding add_score
    add_score_miss m s scored h = elim (Option-cases (Map.get bytes_dec m.name scored)) [
      | inl e ↦ rw (e, add_score) h
      | inr (sm, e) ↦
          rw (e, add_score, Map.get-put)
            (elim (bytes_dec m.name k) [
              | yes p ↦
                  let hit : Map.get bytes_dec k scored ≡ some sm = rw (← p) e in
                  absurd (ground arith)
              | no p ↦ rw (if_neg _ p) h
            ])
    ]

    add_scores_hit :
        (scores : List (Model N.F × N.F)) (scored : Map Bytes (ScoredModel N.F))
        (sm : ScoredModel N.F)
        → Map.get bytes_dec k scored ≡ some sm
        → Map.get bytes_dec k (add_scores weight scores scored)
          ≡ some (with_score sm (tally k weight scores sm.score))
    unfolding add_scores tally
    add_scores_hit [] scored sm h = h
    add_scores_hit ((m, s) ∷ scores) scored sm h =
        add_scores_hit scores (add_score weight m s scored) _ (add_score_hit m s scored sm h)

    add_scores_miss :
        (scores : List (Model N.F × N.F)) (scored : Map Bytes (ScoredModel N.F))
        → Map.get bytes_dec k scored ≡ none
        → Map.get bytes_dec k (add_scores weight scores scored) ≡ none
    unfolding add_scores
    add_scores_miss [] scored h = h
    add_scores_miss ((m, s) ∷ scores) scored h =
        add_scores_miss scores (add_score weight m s scored) (add_score_miss m s scored h)

  abbrev pub scored_at : Option (Model N.F) → N.F → Option (ScoredModel N.F)
  scored_at none score = none
  scored_at (some m) score = some (record { model = m; score = score })

  add_scores_at :
      (k : Bytes) (weight : N.F) (scores : List (Model N.F × N.F))
      (scored : Map Bytes (ScoredModel N.F)) (found : Option (Model N.F)) (acc : N.F)
      → Map.get bytes_dec k scored ≡ scored_at found acc
      → Map.get bytes_dec k (add_scores weight scores scored)
        ≡ scored_at found (tally k weight scores acc)
  add_scores_at k weight scores scored none acc h = add_scores_miss k weight scores scored h
  add_scores_at k weight scores scored (some m) acc h = add_scores_hit k weight scores scored _ h

  -- the last candidate of the name
  unfoldable pub last_named : Bytes → List (Model N.F) → Option (Model N.F) → Option (Model N.F)
  last_named k [] found = found
  last_named k (m ∷ ms) found = last_named k ms (ite (bytes_dec m.name k) (some m) found)

  last_named-some :
      (k : Bytes) (ms : List (Model N.F)) (x : Model N.F)
      → (y : Model N.F) × (last_named k ms (some x) ≡ some y)
  unfolding last_named
  last_named-some k [] x = (x, refl)
  last_named-some k (m ∷ ms) x = elim (bytes_dec m.name k) [
    | yes p ↦ rw (if_pos _ p) (last_named-some k ms m)
    | no p ↦ rw (if_neg _ p) (last_named-some k ms x)
  ]

  pub last_named_first :
      (m : Model N.F) (ms : List (Model N.F))
      → (y : Model N.F) × (last_named m.name (m ∷ ms) none ≡ some y)
  unfolding last_named
  last_named_first m ms = rw (if_pos (bytes_dec m.name m.name) refl) (last_named-some m.name ms m)

  get-enter_models :
      (k : Bytes) (ms : List (Model N.F)) (scored : Map Bytes (ScoredModel N.F))
      (found : Option (Model N.F))
      → Map.get bytes_dec k scored ≡ scored_at found N.zero_f
      → Map.get bytes_dec k (enter_models ms scored) ≡ scored_at (last_named k ms found) N.zero_f
  unfolding enter_models last_named
  get-enter_models k [] scored found h = h
  get-enter_models k (m ∷ ms) scored found h = get-enter_models k ms _ _ (
      rw Map.get-put (elim (bytes_dec m.name k) [
        | yes p ↦ rw (if_pos _ p, if_pos _ p)
        | no p ↦ rw (if_neg _ p, if_neg _ p) h
      ]))

-- the result of a call that returns, read by `f`
abbrev pub read : {A B : Type 0} → (A → B) → Result A → Result B
read f (ok a) = ok (f a)
read f (err e) = err e
read f panic = panic

module _ ⦃S : StringSet⦄ ⦃N : Float64⦄ {W : Type 0} where
  abbrev pub reading : {A B : Type 0} → (A → B) → Outcome W A → Outcome W B
  reading f (request, w, result) = (request, w, read f result)

  -- the weighted sum of a name's scores, scorer by scorer, on top of `acc`
  unfoldable pub total :
      Bytes
      → List (WeightedScorer W)
      → InferenceRequest
      → List (Model N.F)
      → W
      → N.F
      → Outcome W N.F
  total k [] request models w acc = (request, w, ok acc)
  total k (s ∷ ss) request models w acc =
      let (request', w', result) = s.scorer request models w in
      proceed result request' w'
        (λ scores. total k ss request' models w' (tally k s.weight scores acc))

  run_scorers_at :
      (k : Bytes) (models : List (Model N.F)) (found : Option (Model N.F))
      (ss : List (WeightedScorer W)) (request : InferenceRequest)
      (scored : Map Bytes (ScoredModel N.F)) (w : W) (acc : N.F)
      → Map.get bytes_dec k scored ≡ scored_at found acc
      → reading (Map.get bytes_dec k) (run_scorers ss request models scored w)
        ≡ reading (scored_at found) (total k ss request models w acc)
  unfolding run_scorers total
  run_scorers_at k models found [] request scored w acc h = ap (λ x. (request, w, ok x)) h
  run_scorers_at k models found (s ∷ ss) request scored w acc h =
      let (request', w', result) = s.scorer request models w in
      elim (Result-cases result) [
        | inl (scores, e) ↦ rw e (
            run_scorers_at k models found ss request' (add_scores s.weight scores scored) w'
              (tally k s.weight scores acc) (add_scores_at k s.weight scores scored found acc h))
        | inr (inl (x, e)) ↦ rw e refl
        | inr (inr e) ↦ rw e refl
      ]

  -- If no scorer panics, a name has a score exactly if a candidate has that name. The scored model
  -- is then the last candidate of the name, and its score is the sum, over the scorers in order and
  -- the entries under the name, of the score, held to the range from 0 to 1, times the scorer's
  -- weight. A panic of a scorer ends the loop as it ends the sum, and the request and the state are
  -- those that the scorers leave.
  pub get-run_scorer_plugins :
      (ss : List (WeightedScorer W)) (request : InferenceRequest) (models : List (Model N.F))
      (w : W) (k : Bytes)
      → reading (Map.get bytes_dec k) (run_scorer_plugins ss request models w)
        ≡ reading (scored_at (last_named k models none)) (total k ss request models w N.zero_f)
  unfolding run_scorer_plugins
  get-run_scorer_plugins ss request models w k =
      run_scorers_at k models (last_named k models none) ss request (enter_models models []) w
        N.zero_f (get-enter_models k models [] none (unfold Map.get in refl))
