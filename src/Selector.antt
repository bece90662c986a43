-- ===== src/Selector.antt =====
-- pkg/modelselector: the pipeline Filter, Score, Pick over the candidate models.
-- A `range` over a map visits it in the order of its list.
pub mod Filtering
pub mod Scoring
pub mod Entries
pub mod Choice
pub mod Register
use llm_d_inference_payload.Prelude.{
  Bytes, bytes_dec, codes, StringSet, Float64, Bool, true, false, List, [], ◌∷◌, ◌++◌, Option, none,
  some, is_empty, if◌then◌else◌,
}
use llm_d_inference_payload.Prelude.Map
use llm_d_inference_payload.Prelude.Map.{Map}
use llm_d_inference_payload.DataLayer.{Model}
use llm_d_inference_payload.Errors.{Result, ok, err, panic, coded, plain, resource_exhausted}
use llm_d_inference_payload.Framework.{
  InferenceRequest, Outcome, Filter, Scorer, Picker, ScoredModel, proceed,
}

-- `WeightedScorer`
pub record WeightedScorer ⦃S : StringSet⦄ ⦃N : Float64⦄ (W : Type 0) : Type 0 where
  pub scorer : Scorer W
  pub weight : N.F

-- `ModelSelectorPipeline`
pub record Pipeline ⦃S : StringSet⦄ ⦃N : Float64⦄ (W : Type 0) : Type 0 where
  pub filters : List (Filter W)
  pub scorers : List (WeightedScorer W)
  pub picker : Option (Picker W)

module _ ⦃N : Float64⦄ where
  unfoldable pub enforce_score_range : N.F → N.F
  enforce_score_range score =
      if N.lt score N.zero_f then N.zero_f else if N.lt N.one_f score then N.one_f else score

  -- one round of the loop over the scores of one scorer
  unfoldable pub add_score :
      N.F → Model N.F → N.F → Map Bytes (ScoredModel N.F) → Map Bytes (ScoredModel N.F)
  add_score weight m score scored = elim (Map.get bytes_dec m.name scored) [
    | none ↦ scored
    | some sm ↦
        Map.put bytes_dec m.name
          (record sm { score = N.add sm.score (N.mul (enforce_score_range score) weight) }) scored
  ]

  unfoldable pub add_scores :
      N.F → List (Model N.F × N.F) → Map Bytes (ScoredModel N.F) → Map Bytes (ScoredModel N.F)
  unfolding add_score
  add_scores weight [] scored = scored
  add_scores weight ((m, s) ∷ scores) scored =
      add_scores weight scores (add_score weight m s scored)

  -- the loop that enters the candidates, each with the score 0
  unfoldable pub enter_models :
      List (Model N.F) → Map Bytes (ScoredModel N.F) → Map Bytes (ScoredModel N.F)
  enter_models [] scored = scored
  enter_models (m ∷ models) scored =
      enter_models models (Map.put bytes_dec m.name (record { model = m; score = N.zero_f }) scored)

  unfoldable pub values : Map Bytes (ScoredModel N.F) → List (ScoredModel N.F)
  values [] = []
  values ((k, sm) ∷ m) = sm ∷ values m

module _ ⦃S : StringSet⦄ ⦃N : Float64⦄ {W : Type 0} where
  unfoldable pub run_filter_plugins :
      List (Filter W) → InferenceRequest → List (Model N.F) → W → Outcome W (List (Model N.F))
  run_filter_plugins [] request models w = (request, w, ok models)
  run_filter_plugins (filter ∷ filters) request models w =
      let (request', w', result) = filter request models w in
      proceed result request' w' (λ filtered.
        let rest = run_filter_plugins filters request' filtered w' in
        if is_empty filtered then (request', w', ok filtered) else rest)

  unfoldable pub run_scorers :
      List (WeightedScorer W)
      → InferenceRequest
      → List (Model N.F)
      → Map Bytes (ScoredModel N.F)
      → W
      → Outcome W (Map Bytes (ScoredModel N.F))
  run_scorers [] request models scored w = (request, w, ok scored)
  run_scorers (s ∷ scorers) request models scored w =
      let (request', w', result) = s.scorer request models w in
      proceed result request' w'
        (λ scores. run_scorers scorers request' models (add_scores s.weight scores scored) w')

  unfoldable pub run_scorer_plugins :
      List (WeightedScorer W)
      → InferenceRequest
      → List (Model N.F)
      → W
      → Outcome W (Map Bytes (ScoredModel N.F))
  unfolding enter_models add_scores run_scorers
  run_scorer_plugins scorers request models w =
      run_scorers scorers request models (enter_models models []) w

  -- A pipeline without a picker panics, and so does a target that is nil.
  unfoldable pub run_picker_plugin :
      Option (Picker W) → Map Bytes (ScoredModel N.F) → W → Result (Model N.F) × W
  run_picker_plugin none scored w = (panic, w)
  run_picker_plugin (some pick) scored w =
      let (result, w') = pick (values scored) w in
      (
        elim result [
          | ok target ↦ elim target [ none ↦ panic | some m ↦ ok m ]
          | err e ↦ err e
          | panic ↦ panic
        ],
        w',
      )

  unfoldable pub run : Pipeline W → InferenceRequest → List (Model N.F) → W → Outcome W (Model N.F)
  unfolding run_filter_plugins run_scorer_plugins run_picker_plugin
  run p request candidates w =
      let (request₁, w₁, filtered) = run_filter_plugins p.filters request candidates w in
      proceed filtered request₁ w₁ (λ models.
        if is_empty models
        then (
          request₁,
          w₁,
          err (coded resource_exhausted (codes "no models available after filtering")),
        )
        else (let (request₂, w₂, scores) = run_scorer_plugins p.scorers request₁ models w₁ in
            proceed scores request₂ w₂ (λ scored.
              let (target, w₃) = run_picker_plugin p.picker scored w₂ in (request₂, w₃, target))))

  -- `ModelSelector.Select`. The check for a nil result comes after `run`, which panics on one.
  unfoldable pub select :
      Pipeline W → InferenceRequest → List (Model N.F) → W → Outcome W (Model N.F)
  unfolding run
  select p request candidates w =
      if is_empty candidates
      then (request, w, err (plain (codes "no candidate models provided")))
      else run p request candidates w
