-- ===== src/Scorers.antt =====
-- pkg/framework/plugins/modelselector/scorer: the scorers inflightrequests and costaware, and the
-- picker pkg/framework/plugins/modelselector/picker/weightedrandom. `of_int` is the conversion of
-- an `int64` to a float, `half` is 0.5.
pub mod Load
pub mod Unpriced
pub mod CostGuard
use llm_d_inference_payload.Prelude.{
  Bytes, bytes_dec, codes, StringSet, Float64, ℕ, ◌==◌, ℤ, pos, negsuc, ◌-64◌, ltb, length, Bool,
  true, false, List, [], ◌∷◌, Option, none, some, if◌then◌else◌, two63, ◌-◌,
}
use llm_d_inference_payload.Prelude.Map
use llm_d_inference_payload.DataLayer.{Model, Attribute, request_count, token_prices}
use llm_d_inference_payload.Errors.{Result, ok, err, panic, ◌>>=◌}
use llm_d_inference_payload.Framework.{Scorer, ScoredModel, InferenceRequest}
use llm_d_inference_payload.RequestMetadata.{request_metadata_attribute_key}
use llm_d_inference_payload.ModelConfig.{token_prices_attribute_key}

-- `a < b` of two `int64`
abbrev pub lt_int : ℤ → ℤ → Bool
lt_int (pos a) (pos b) = ltb a b
lt_int (pos a) (negsuc b) = false
lt_int (negsuc a) (pos b) = true
lt_int (negsuc a) (negsuc b) = ltb b a

abbrev pub eq_int : ℤ → ℤ → Bool
eq_int (pos a) (pos b) = a == b
eq_int (pos a) (negsuc b) = false
eq_int (negsuc a) (pos b) = false
eq_int (negsuc a) (negsuc b) = a == b

abbrev pub max_int64 : ℤ
max_int64 = pos (two63 - 1)

abbrev pub min_int64 : ℤ
min_int64 = negsuc (two63 - 1)

module _ ⦃N : Float64⦄ where
  unfoldable pub inflight_request_count : Model N.F → ℤ
  inflight_request_count m = elim (Map.get bytes_dec request_metadata_attribute_key m.attributes) [
    | none ↦ pos 0
    | some v ↦ elim v [ request_count requests tokens ↦ requests | _ ↦ pos 0 ]
  ]

  -- the loop for the smallest and the largest count, from those so far
  unfoldable pub count_range : List (Model N.F) → ℤ × ℤ → ℤ × ℤ
  count_range [] range = range
  count_range (m ∷ models) (least, most) =
      let count = inflight_request_count m in
      count_range models
        (if lt_int count least then count else least, if lt_int most count then count else most)

  -- the loop for the scores
  unfoldable pub load_scores : (ℤ → N.F) → ℤ × ℤ → List (Model N.F) → List (Model N.F × N.F)
  load_scores of_int range [] = []
  load_scores of_int (least, most) (m ∷ models) =
      (
        m,
        if eq_int most least
            then N.one_f
            else N.div (of_int (most -64 inflight_request_count m)) (of_int (most -64 least)),
      )
      ∷ load_scores of_int (least, most) models

  -- the scores of `InflightRequestsScorer.Score`
  unfoldable pub score_by_load : (ℤ → N.F) → List (Model N.F) → List (Model N.F × N.F)
  unfolding count_range load_scores
  score_by_load of_int models =
      load_scores of_int (count_range models (max_int64, min_int64)) models

  -- the price of an input token; a model without prices panics
  unfoldable pub input_price : Model N.F → Result N.F
  input_price m = elim (Map.get bytes_dec token_prices_attribute_key m.attributes) [
    | none ↦ panic
    | some v ↦ elim v [ token_prices input output ↦ ok input | _ ↦ panic ]
  ]

  unfoldable pub sum_prices : List (Model N.F) → N.F → Result N.F
  sum_prices [] sum = ok sum
  sum_prices (m ∷ models) sum = input_price m >>= λ price. sum_prices models (N.add sum price)

  unfoldable pub perfect_scores : List (Model N.F) → List (Model N.F × N.F)
  perfect_scores [] = []
  perfect_scores (m ∷ models) = (m, N.one_f) ∷ perfect_scores models

  unfoldable pub price_scores : N.F → List (Model N.F) → Result (List (Model N.F × N.F))
  price_scores sum [] = ok []
  price_scores sum (m ∷ models) = input_price m >>= λ price.
      price_scores sum models >>= λ rest. ok ((m, N.sub N.one_f (N.div price sum)) ∷ rest)

  -- the scores of `CostScorer.Score`; `is_zero` is the comparison of a float with 0
  unfoldable pub score_by_cost :
      N.F → (N.F → Bool) → List (Model N.F) → Result (List (Model N.F × N.F))
  unfolding sum_prices perfect_scores price_scores
  score_by_cost half is_zero [] = ok []
  score_by_cost half is_zero (m ∷ []) = ok ((m, half) ∷ [])
  score_by_cost half is_zero (m ∷ n ∷ models) = sum_prices (m ∷ n ∷ models) N.zero_f >>= λ sum.
      if is_zero sum
      then ok (perfect_scores (m ∷ n ∷ models))
      else price_scores sum (m ∷ n ∷ models)

module _ ⦃S : StringSet⦄ ⦃N : Float64⦄ {W : Type 0} where
  -- `InflightRequestsScorer.Score`
  unfoldable pub load_scorer : (ℤ → N.F) → Scorer W
  unfolding score_by_load
  load_scorer of_int request models w = (request, w, ok (score_by_load of_int models))

  -- `CostScorer.Score`
  unfoldable pub cost_scorer : N.F → (N.F → Bool) → Scorer W
  unfolding score_by_cost
  cost_scorer half is_zero request models w = (request, w, score_by_cost half is_zero models)
