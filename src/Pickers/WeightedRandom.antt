-- ===== src/Pickers/WeightedRandom.antt =====
-- pkg/framework/plugins/modelselector/picker/weightedrandom/picker.go. The random numbers, the
-- power and the sort of package slices are parameters.
use llm_d_inference_payload.Prelude.{
  Float64, StringSet, ℕ, Bool, true, false, List, [], ◌∷◌, Option, some, if◌then◌else◌,
}
use llm_d_inference_payload.DataLayer.{Model}
use llm_d_inference_payload.Errors.{Result, ok, panic}
use llm_d_inference_payload.Framework.{ScoredModel, Picker}
use llm_d_inference_payload.Pickers.{random_pick}

-- what the picker uses of floats, and of package slices: `sort` is by the keys, the highest first
pub record WeightedSampling (F : Type 0) (W : Type 0) : Type 0 where
  -- the next number of the random source
  pub float64 : W → F × W
  pub pow : F → F → F
  -- 1e-10
  pub tiny : F
  pub is_zero : F → Bool
  -- `x <= 0`
  pub is_not_positive : F → Bool
  pub sort : List (ScoredModel F × F) → List (ScoredModel F × F)

module _ ⦃N : Float64⦄ {W : Type 0} (G : WeightedSampling N.F W) where
  -- some score is above 0
  unfoldable pub any_positive : List (ScoredModel N.F) → Bool
  any_positive [] = false
  any_positive (x ∷ xs) = let rest = any_positive xs in if N.lt N.zero_f x.score then true else rest

  -- the key of a model with a positive score
  unfoldable pub sampling_key : N.F → N.F → N.F
  sampling_key u score = G.pow (if G.is_zero u then G.tiny else u) (N.div N.one_f score)

  -- the loop for the keys
  unfoldable pub weigh : List (ScoredModel N.F) → W → List (ScoredModel N.F × N.F) × W
  unfolding sampling_key
  weigh [] w = ([], w)
  weigh (x ∷ xs) w = elim (G.is_not_positive x.score) [
    | true ↦ let (rest, w') = weigh xs w in ((x, N.zero_f) ∷ rest, w')
    | false ↦
        let (u, w1) = G.float64 w in
        let (rest, w2) = weigh xs w1 in ((x, sampling_key u x.score) ∷ rest, w2)
  ]

  -- `weightedModels[0].Model`
  abbrev pub first_weighted : List (ScoredModel N.F × N.F) → Result (Option (Model N.F))
  first_weighted [] = panic
  first_weighted ((x, key) ∷ xs) = ok (some x.model)

  unfoldable pub weighted_random_pick : ⦃S : StringSet⦄ → (ℕ → W → List (ℕ × ℕ) × W) → Picker W
  unfolding any_positive weigh random_pick
  weighted_random_pick swaps models w =
      if any_positive models
      then (let (weighted, w') = weigh models w in (first_weighted (G.sort weighted), w'))
      else random_pick swaps models w
