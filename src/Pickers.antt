-- ===== src/Pickers.antt =====
-- pkg/framework/plugins/modelselector/picker: the max-score and the random picker. `rand.Shuffle`
-- calls the swap it is given at pairs of indices of its choice: `swaps` gives the pairs for a
-- length. It is documented to take them below the length only, so the read out of range, at which
-- Go would panic, does not arise, and the model changes nothing there. The sort of package slices
-- is a parameter.
pub mod Sorting
pub mod MaxScore
pub mod WeightedRandom
use llm_d_inference_payload.Prelude.{
  Float64, StringSet, ℕ, List, [], ◌∷◌, Option, none, some, get_elem?, set, length, if◌then◌else◌,
}
use llm_d_inference_payload.DataLayer.{Model}
use llm_d_inference_payload.Errors.{Result, ok, panic}
use llm_d_inference_payload.Framework.{ScoredModel, Picker}
use llm_d_inference_payload.Pickers.Sorting.{Order, negative, zero, positive, StableSort}

-- `xs[i], xs[j] = xs[j], xs[i]`
unfoldable pub swap {ℓ} : {A : Type ℓ} → List A → ℕ → ℕ → List A
swap xs i j = elim (get_elem? xs i) [
  | none ↦ xs
  | some a ↦ elim (get_elem? xs j) [ none ↦ xs | some b ↦ set (set xs i b) j a ]
]

unfoldable pub swap_all {ℓ} : {A : Type ℓ} → List (ℕ × ℕ) → List A → List A
unfolding swap
swap_all [] xs = xs
swap_all ((i, j) ∷ ps) xs = swap_all ps (swap xs i j)

module _ ⦃N : Float64⦄ where
  -- the comparison of the sort: highest score first
  unfoldable pub compare_scores : ScoredModel N.F → ScoredModel N.F → Order
  compare_scores i j =
      if N.lt j.score i.score then negative else if N.lt i.score j.score then positive else zero

  -- `scoredModels[0].Model`, which panics on no models
  abbrev pub first_model : List (ScoredModel N.F) → Result (Option (Model N.F))
  first_model [] = panic
  first_model (x ∷ xs) = ok (some x.model)

module _ ⦃N : Float64⦄ {W : Type 0} (swaps : ℕ → W → List (ℕ × ℕ) × W) where
  unfoldable pub shuffle_scored_models : List (ScoredModel N.F) → W → List (ScoredModel N.F) × W
  unfolding swap_all
  shuffle_scored_models models w =
      let (pairs, w') = swaps (length models) w in (swap_all pairs models, w')

  module _ ⦃S : StringSet⦄ where
    unfoldable pub max_score_pick : StableSort → Picker W
    unfolding shuffle_scored_models
    max_score_pick sorting models w =
        let (shuffled, w') = shuffle_scored_models models w in
        (first_model (sorting.sort_stable_func compare_scores shuffled), w')

    unfoldable pub random_pick : Picker W
    unfolding shuffle_scored_models
    random_pick models w =
        let (shuffled, w') = shuffle_scored_models models w in (first_model shuffled, w')
