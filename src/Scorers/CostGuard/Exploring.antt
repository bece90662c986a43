-- ===== src/Scorers/CostGuard/Exploring.antt =====
-- pkg/framework/plugins/modelselector/scorer/costguard/plugin.go, `explore`: the model that it
-- picks.
use llm_d_inference_payload.Prelude.{
  Float64, ℕ, zero, suc, ◌+◌, ◌<◌, length, set, get_elem?, Bool, true, false, List, [], ◌∷◌, some,
  is_empty, if◌then◌else◌, All, All-weaken, All-get_elem?, ◌≡◌, refl, ◌⊎◌, inl, inr, arith,
  Bool-cases, subst,
}
use llm_d_inference_payload.DataLayer.{Model}
use llm_d_inference_payload.Errors.{ok}
use llm_d_inference_payload.Scorers.CostGuard.{
  Digests, CostGuardScorer, is_under_explored, under_explored_from, positions_from, candidates,
  neutral_scores, explore, score_by_guard,
}

get_elem?-below {ℓ} :
    {A : Type ℓ} (xs : List A) (i : ℕ) → i < length xs → (a : A) × (get_elem? xs i ≡ some a)
get_elem?-below [] i h = absurd (omega arith)
get_elem?-below (x ∷ xs) zero h = (x, refl)
get_elem?-below (x ∷ xs) (suc i) h = get_elem?-below xs i (omega arith)

module _ ⦃N : Float64⦄ (D : Digests N.F) (s : CostGuardScorer N.F) where
  -- the position of a model with the property, counted from `j`
  abbrev At : (Model N.F → Type 0) → ℕ → List (Model N.F) → ℕ → Type 0
  At P j models i = (d : ℕ) × (i ≡ j + d) × ((k : Model N.F) × (get_elem? models d ≡ some k) × P k)

  At-next :
      (P : Model N.F → Type 0) (j : ℕ) (m : Model N.F) (models : List (Model N.F)) (i : ℕ)
      → At P (suc j) models i
      → At P j (m ∷ models) i
  At-next P j m models i (d, e, found) = (suc d, omega arith, found)

  abbrev IsUnder : Model N.F → Type 0
  IsUnder m = is_under_explored D s m ≡ true

  abbrev IsAny : Model N.F → Type 0
  IsAny m = Unit

  positions_from-At :
      (j : ℕ) (models : List (Model N.F)) → All (At IsAny j models) (positions_from D s j models)
  unfolding positions_from
  positions_from-At j [] = tt
  positions_from-At j (m ∷ models) = (
    (0, omega arith, (m, refl, tt)),
    All-weaken (At-next IsAny j m models) (positions_from D s (suc j) models)
        (positions_from-At (suc j) models),
  )

  -- one round of the loop for the under-explored models
  round-At :
      (b : Bool) (j : ℕ) (m : Model N.F) (models : List (Model N.F)) (rest : List ℕ)
      → is_under_explored D s m ≡ b
      → All (At IsUnder (suc j) models) rest
      → All (At IsUnder j (m ∷ models)) (if b then j ∷ rest else rest)
  round-At true j m models rest e a =
      ((0, omega arith, (m, refl, e)), All-weaken (At-next IsUnder j m models) rest a)
  round-At false j m models rest e a = All-weaken (At-next IsUnder j m models) rest a

  under_explored_from-At :
      (j : ℕ) (models : List (Model N.F))
      → All (At IsUnder j models) (under_explored_from D s j models)
  unfolding under_explored_from
  under_explored_from-At j [] = tt
  under_explored_from-At j (m ∷ models) =
      round-At (is_under_explored D s m) j m models _ refl (under_explored_from-At (suc j) models)

  round-none :
      (b : Bool) (j : ℕ) (m : Model N.F) (rest : List ℕ)
      → is_under_explored D s m ≡ b
      → is_empty (if b then j ∷ rest else rest) ≡ true
      → (is_under_explored D s m ≡ false) × (is_empty rest ≡ true)
  round-none true j m rest e h = absurd (ground arith)
  round-none false j m rest e h = (e, h)

  under_explored_from-none :
      (j : ℕ) (models : List (Model N.F))
      → is_empty (under_explored_from D s j models) ≡ true
      → All (λ m. is_under_explored D s m ≡ false) models
  unfolding under_explored_from
  under_explored_from-none j [] h = tt
  under_explored_from-none j (m ∷ models) h =
      let (explored, rest) = round-none (is_under_explored D s m) j m _ refl h in
      (explored, under_explored_from-none (suc j) models rest)

  -- what the candidates for the pick are
  abbrev Pick : List (Model N.F) → ℕ → Type 0
  Pick models i =
      (k : Model N.F) × (get_elem? models i ≡ some k)
      × ((is_under_explored D s k ≡ true) ⊎ All (λ m. is_under_explored D s m ≡ false) models)

  candidates-Pick :
      (models : List (Model N.F)) (chosen i : ℕ)
      → get_elem? (candidates D s models) chosen ≡ some i
      → Pick models i
  unfolding candidates
  candidates-Pick models chosen i e =
      elim (Bool-cases (is_empty (under_explored_from D s 0 models))) [
        | inl none_under ↦
            let (d, at, (k, found, _)) =
              All-get_elem? (At IsAny 0 models) (positions_from D s 0 models) chosen
                (positions_from-At 0 models) (rw none_under at e) in
            let same : d ≡ i = omega arith in
            (
              k,
              subst (λ z. get_elem? models z ≡ some k) same found,
              inr (under_explored_from-none 0 models none_under),
            )
        | inr some_under ↦
            let (d, at, (k, found, under)) =
              All-get_elem? (At IsUnder 0 models) (under_explored_from D s 0 models) chosen
                (under_explored_from-At 0 models) (rw some_under at e) in
            let same : d ≡ i = omega arith in
            (k, subst (λ z. get_elem? models z ≡ some k) same found, inl under)
      ]

  -- When the scorer explores, one candidate gets the score 1 and every other one the neutral score;
  -- if there is a model that is under-explored, it is such a one. The second random number is below
  -- the number of those that it chooses from.
  pub score_by_guard-Pick :
      (u : N.F) (chosen : ℕ) (m : Model N.F) (models : List (Model N.F))
      → N.lt u s.epsilon ≡ true
      → chosen < length (candidates D s (m ∷ models))
      → (i : ℕ) × (k : Model N.F) × (get_elem? (m ∷ models) i ≡ some k)
        × (score_by_guard D s u chosen (m ∷ models)
            ≡ ok (set (neutral_scores D s (m ∷ models)) i N.one_f))
        × ((is_under_explored D s k ≡ true)
            ⊎ All (λ x. is_under_explored D s x ≡ false) (m ∷ models))
  unfolding score_by_guard explore
  score_by_guard-Pick u chosen m models e h =
      let (i, at) = get_elem?-below (candidates D s (m ∷ models)) chosen h in
      let (k, found, under) = candidates-Pick (m ∷ models) chosen i at in
      (i, k, found, rw (e, score_by_guard, at, explore) refl, under)
