-- ===== src/Scorers/Unpriced.antt =====
-- pkg/framework/plugins/modelselector/scorer/costaware: the scorer in a pipeline, on a candidate
-- without prices.
use llm_d_inference_payload.Prelude.{
  bytes_dec, StringSet, Float64, Bool, List, [], ◌∷◌, Option, none, Any, ◌≡◌, ◌⊎◌, refl, inl, inr,
  Option-cases,
}
use llm_d_inference_payload.Prelude.Map
use llm_d_inference_payload.DataLayer.{Model, Attribute, token_prices}
use llm_d_inference_payload.Errors.{Result, ok, panic}
use llm_d_inference_payload.Framework.{InferenceRequest, Filter, Picker}
use llm_d_inference_payload.ModelConfig.{token_prices_attribute_key}
use llm_d_inference_payload.Scorers.{input_price, sum_prices, score_by_cost, cost_scorer}
use llm_d_inference_payload.Selector.{
  WeightedScorer, run_filter_plugins, run_scorer_plugins, run_scorers, run, select,
}

module _ ⦃N : Float64⦄ where
  -- the model has no prices
  abbrev pub IsUnpriced : Model N.F → Type 0
  IsUnpriced m = Map.get bytes_dec token_prices_attribute_key m.attributes ≡ none

  input_price-unpriced : (m : Model N.F) → IsUnpriced m → input_price m ≡ panic
  unfolding input_price
  input_price-unpriced m e = rw (e, input_price) refl

  input_price-cases :
      (m : Model N.F) → ((price : N.F) × (input_price m ≡ ok price)) ⊎ (input_price m ≡ panic)
  unfolding input_price
  input_price-cases m =
      elim (Option-cases (Map.get bytes_dec token_prices_attribute_key m.attributes)) [
        | inl e ↦ inr (rw (e, input_price) refl)
        | inr (a, e) ↦ rw (e, input_price) (price_of a)
      ]
    where
      price_of :
          (a : Attribute N.F)
          → let r : Result N.F = elim a [ token_prices input output ↦ ok input | _ ↦ panic ] in
            ((price : N.F) × (r ≡ ok price)) ⊎ (r ≡ panic)
      price_of (Attribute.token_prices x y) = inl (x, refl)
      price_of (Attribute.request_count x y) = inr refl
      price_of (Attribute.groups names) = inr refl
      price_of Attribute.other = inr refl

  sum_prices-unpriced :
      (models : List (Model N.F)) (sum : N.F)
      → Any IsUnpriced models
      → sum_prices models sum ≡ panic
  unfolding sum_prices
  sum_prices-unpriced [] sum a = absurd a
  sum_prices-unpriced (m ∷ models) sum (inl e) = rw (input_price-unpriced m e) refl
  sum_prices-unpriced (m ∷ models) sum (inr a) = elim (input_price-cases m) [
    | inl (price, e) ↦ rw e (sum_prices-unpriced models (N.add sum price) a)
    | inr e ↦ rw e refl
  ]

module _ ⦃S : StringSet⦄ ⦃N : Float64⦄ {W : Type 0} where
  -- If the filters leave at least two candidates, one of them without token prices, and the cost
  -- scorer is the first scorer of the pipeline, then `Select` panics, whatever the other scorers
  -- and the picker are.
  pub select_unpriced :
      (half : N.F) (is_zero : N.F → Bool) (weight : N.F) (fs : List (Filter W))
      (ss : List (WeightedScorer W)) (picker : Option (Picker W))
      (request request' : InferenceRequest) (c : Model N.F) (cs : List (Model N.F)) (w w' : W)
      (m n : Model N.F) (ms : List (Model N.F))
      → run_filter_plugins fs request (c ∷ cs) w ≡ (request', w', ok (m ∷ n ∷ ms))
      → Any IsUnpriced (m ∷ n ∷ ms)
      → select
          (record {
            filters = fs;
            scorers = record { scorer = cost_scorer half is_zero; weight = weight } ∷ ss;
            picker = picker;
          })
          request
          (c ∷ cs)
          w
        ≡ (request', w', panic)
  unfolding select run run_scorer_plugins run_scorers cost_scorer score_by_cost
  select_unpriced half is_zero weight fs ss picker request request' c cs w w' m n ms e a =
      rw (e, sum_prices-unpriced (m ∷ n ∷ ms) N.zero_f a) refl
