-- ===== src/Pickers/MaxScore.antt =====
-- pkg/framework/plugins/modelselector/picker/maxscore: what `Pick` returns.
use llm_d_inference_payload.Prelude.{
  Float64, StringSet, ℕ, List, [], ◌∷◌, some, get_elem?, set, length, All, All-get_elem?, All-set,
  get_elem?-All, get_elem?-set_self, get_elem?-set_ne, ◌≡◌, refl, sym, ap, ◌∙◌, arith, ℕ_discrete,
  Option-cases, Bool-cases, inl, inr, false, length-set, Any, ◌≢◌, ◌⊎◌, All-self, All-weaken,
}
use llm_d_inference_payload.Errors.{ok, panic}
use llm_d_inference_payload.Framework.{ScoredModel}
use llm_d_inference_payload.Pickers.Sorting.{is_negative, StrictWeak, IsSorted, StableSort}
use llm_d_inference_payload.Pickers.{
  swap, swap_all, compare_scores, first_model, shuffle_scored_models, max_score_pick,
}

module _ {ℓ} {A : Type ℓ} where
  get_elem?-swapped :
      (xs : List A) (i j : ℕ) {a b : A}
      → get_elem? xs i ≡ some a
      → get_elem? xs j ≡ some b
      → (get_elem? (set (set xs i b) j a) i ≡ some b)
        × (get_elem? (set (set xs i b) j a) j ≡ some a)
  get_elem?-swapped xs i j {a} {b} p q = elim (ℕ_discrete j i) [
    | yes same ↦
        let ab : a ≡ b = cc in
        let r : get_elem? (set xs i b) j ≡ some b =
          ap (get_elem? (set xs i b)) same ∙ get_elem?-set_self xs i b p in
        let w = get_elem?-set_self (set xs i b) j a r in
        (ap (get_elem? (set (set xs i b) j a)) (sym same) ∙ w ∙ ap some ab, w)
    | no other ↦ (
      get_elem?-set_ne (set xs i b) j i a other ∙ get_elem?-set_self xs i b p,
      get_elem?-set_self (set xs i b) j a (get_elem?-set_ne xs i j b (λ e. other (sym e)) ∙ q),
    )
  ]

  -- An entry is where it was, or where the other one was.
  swap_keeps :
      (xs : List A) (i j n : ℕ) (x : A)
      → get_elem? xs n ≡ some x
      → (m : ℕ) × (get_elem? (swap xs i j) m ≡ some x)
  unfolding swap
  swap_keeps xs i j n x e = elim (Option-cases (get_elem? xs i)) [
    | inl p ↦ (n, rw (p, swap) e)
    | inr (a, p) ↦ elim (Option-cases (get_elem? xs j)) [
      | inl q ↦ (n, rw (p, q, swap) e)
      | inr (b, q) ↦ elim (ℕ_discrete n i) [
        | yes at_i ↦ (j, rw (p, q, swap) (let w = get_elem?-swapped xs i j p q in cc))
        | no off_i ↦ elim (ℕ_discrete n j) [
          | yes at_j ↦ (i, rw (p, q, swap) (let w = get_elem?-swapped xs i j p q in cc))
          | no off_j ↦ (
            n,
            rw (p, q, swap)
                (get_elem?-set_ne (set xs i b) j n a (λ z. off_j (sym z))
                  ∙ get_elem?-set_ne xs i n b (λ z. off_i (sym z))
                  ∙ e),
          )
        ]
      ]
    ]
  ]

  -- What holds of all entries of the swapped list held of all before.
  All-swap : (P : A → Type 0) (xs : List A) (i j : ℕ) → All P (swap xs i j) → All P xs
  All-swap P xs i j h =
      get_elem?-All P xs
        (λ n x e. let (m, e') = swap_keeps xs i j n x e in All-get_elem? P (swap xs i j) m h e')

  All-swap_all :
      (P : A → Type 0) (ps : List (ℕ × ℕ)) (xs : List A) → All P (swap_all ps xs) → All P xs
  unfolding swap_all
  All-swap_all P [] xs h = h
  All-swap_all P ((i, j) ∷ ps) xs h = All-swap P xs i j (All-swap_all P ps (swap xs i j) h)

  -- A swap makes no entries up either.
  swap-All : (P : A → Type 0) (xs : List A) (i j : ℕ) → All P xs → All P (swap xs i j)
  unfolding swap
  swap-All P xs i j h = elim (Option-cases (get_elem? xs i)) [
    | inl p ↦ rw (p, swap) h
    | inr (a, p) ↦ elim (Option-cases (get_elem? xs j)) [
      | inl q ↦ rw (p, q, swap) h
      | inr (b, q) ↦
          rw (p, q, swap)
            (All-set P (set xs i b) j a (All-get_elem? P xs i h p)
              (All-set P xs i b (All-get_elem? P xs j h q) h))
    ]
  ]

  swap_all-All :
      (P : A → Type 0) (ps : List (ℕ × ℕ)) (xs : List A) → All P xs → All P (swap_all ps xs)
  unfolding swap_all
  swap_all-All P [] xs h = h
  swap_all-All P ((i, j) ∷ ps) xs h = swap_all-All P ps (swap xs i j) (swap-All P xs i j h)

  length-swap : (xs : List A) (i j : ℕ) → length (swap xs i j) ≡ length xs
  unfolding swap
  length-swap xs i j = elim (Option-cases (get_elem? xs i)) [
    | inl p ↦ rw (p, swap)
    | inr (a, p) ↦ elim (Option-cases (get_elem? xs j)) [
      | inl q ↦ rw (p, q, swap)
      | inr (b, q) ↦ rw (p, q, swap) (length-set (set xs i b) j a ∙ length-set xs i b)
    ]
  ]

  length-swap_all : (ps : List (ℕ × ℕ)) (xs : List A) → length (swap_all ps xs) ≡ length xs
  unfolding swap_all
  length-swap_all [] xs = refl
  length-swap_all ((i, j) ∷ ps) xs = length-swap_all ps (swap xs i j) ∙ length-swap xs i j

  swap_all-nil : (ps : List (ℕ × ℕ)) → swap_all {A = A} ps [] ≡ []
  unfolding swap_all swap
  swap_all-nil [] = refl
  swap_all-nil ((i, j) ∷ ps) = swap_all-nil ps

module _ ⦃N : Float64⦄ where
  -- the score is not NaN
  abbrev pub IsNumber : ScoredModel N.F → Type 0
  IsNumber x = N.is_nan x.score ≡ false

  is_negative-compare_scores :
      (x y : ScoredModel N.F) → is_negative (compare_scores x y) ≡ N.lt y.score x.score
  unfolding compare_scores
  is_negative-compare_scores x y = elim (Bool-cases (N.lt y.score x.score)) [
    | inl e ↦ rw (e, compare_scores) refl
    | inr e ↦ elim (Bool-cases (N.lt x.score y.score)) [
      | inl f ↦ rw (e, f, compare_scores) refl
      | inr f ↦ rw (e, f, compare_scores) refl
    ]
  ]

  -- Of numbers, the comparison is what the sort asks for.
  compare_scores-StrictWeak : StrictWeak compare_scores IsNumber
  compare_scores-StrictWeak = record {
    irrefl = λ x p. is_negative-compare_scores x x ∙ N.lt-irrefl x.score;
    trans = λ x y z p q r h k.
        is_negative-compare_scores x z
        ∙ N.lt_trans z.score y.score x.score (sym (is_negative-compare_scores y z) ∙ k)
            (sym (is_negative-compare_scores x y) ∙ h);
    either = λ x y z p q r h.
        elim (N.lt_either z.score y.score x.score (sym (is_negative-compare_scores x z) ∙ h) q) [
          | inl e ↦ inr (is_negative-compare_scores y z ∙ e)
          | inr e ↦ inl (is_negative-compare_scores x y ∙ e)
        ];
  }

  -- It is one of the models, and no model scores strictly higher.
  abbrev pub IsBest : List (ScoredModel N.F) → ScoredModel N.F → Type 0
  IsBest models best =
      Any (λ x. x ≡ best) models × All (λ y. N.lt best.score y.score ≡ false) models

  sorted-IsBest :
      (models sorted : List (ScoredModel N.F))
      → All (λ y. Any (λ x. x ≡ y) models) sorted
      → ((P : ScoredModel N.F → Type 0) → All P sorted → All P models)
      → IsSorted compare_scores sorted
      → (sorted ≢ [])
      → (best : ScoredModel N.F) × IsBest models best × (first_model sorted ≡ ok (some best.model))
  sorted-IsBest models [] own back h ne = absurd (ne refl)
  sorted-IsBest models (x ∷ xs) own back h ne = (
    x,
    (
      own.0,
      back (λ y. N.lt x.score y.score ≡ false)
          (
            N.lt-irrefl x.score,
            All-weaken (λ y e. sym (is_negative-compare_scores y x) ∙ e) xs h.0,
          ),
    ),
    refl,
  )

  empty_panics : (sorted : List (ScoredModel N.F)) → length sorted ≡ 0 → first_model sorted ≡ panic
  empty_panics [] e = refl
  empty_panics (x ∷ xs) e = absurd (omega (arith, e))

module _ ⦃S : StringSet⦄ ⦃N : Float64⦄ {W : Type 0} (swaps : ℕ → W → List (ℕ × ℕ) × W)
    (sorting : StableSort) where
  -- Whatever the shuffle, the max-score picker panics on no models; if no score is NaN, it takes
  -- one of the models, and none of the models scores strictly higher. The sort rearranges, and
  -- sorts by a strict weak order.
  pub max_score_pick-IsBest :
      (models : List (ScoredModel N.F)) (w : W)
      → All IsNumber models
      → ((models ≡ []) × ((max_score_pick swaps sorting models w).0 ≡ panic))
        ⊎ ((best : ScoredModel N.F) × IsBest models best
            × ((max_score_pick swaps sorting models w).0 ≡ ok (some best.model)))
  unfolding max_score_pick shuffle_scored_models
  max_score_pick-IsBest [] w numbers =
      let sorted = sorting.sort_stable_func compare_scores (swap_all (swaps 0 w).0 []) in
      let size : length sorted ≡ 0 =
        sorting.length-sort compare_scores (swap_all (swaps 0 w).0 [])
        ∙ length-swap_all (swaps 0 w).0 [] in
      inl (refl, empty_panics sorted size)
  max_score_pick-IsBest (m ∷ ms) w numbers =
      let models : List (ScoredModel N.F) = m ∷ ms in
      let ps = (swaps (length models) w).0 in
      let shuffled = swap_all ps models in
      let sorted = sorting.sort_stable_func compare_scores shuffled in
      let size : length sorted ≡ length models =
        sorting.length-sort compare_scores shuffled ∙ length-swap_all ps models in
      inr (
        sorted-IsBest models sorted
          (sorting.All-sort compare_scores _ shuffled (swap_all-All _ ps models (All-self models)))
          (λ P h. All-swap_all P ps models (sorting.sort-All compare_scores P shuffled h))
          (sorting.sort-IsSorted compare_scores IsNumber shuffled compare_scores-StrictWeak
            (swap_all-All _ ps models numbers))
          (λ e. absurd (omega (arith, ap length e, size))))
