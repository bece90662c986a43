-- ===== src/Scorers/Load.antt =====
-- pkg/framework/plugins/modelselector/scorer/inflightrequests/plugin.go: what a score is.
use llm_d_inference_payload.Prelude.{
  Float64, ℕ, ◌-◌, ◌≤◌, ◌<◌, ◌==◌, ltb, ℤ, pos, pos_part, two63, ◌-64◌, -64_pos, Bool, true, false,
  List, [], ◌∷◌, if◌then◌else◌, All, All-both, Any, ◌≡◌, refl, sym, ap, ◌∙◌, ◌⊎◌, inl, inr, arith,
}
use llm_d_inference_payload.DataLayer.{Model}
use llm_d_inference_payload.Scorers.{
  lt_int, max_int64, min_int64, inflight_request_count, count_range, load_scores, score_by_load,
}

-- one round of the loop for the smallest count, and for the largest
pick : (b : Bool) (x y : ℕ) → (if b then pos x else pos y) ≡ pos (if b then x else y)
pick true x y = refl
pick false x y = refl

smaller :
    (c : ℤ) (n l : ℕ)
    → c ≡ pos n
    → (if lt_int c (pos l) then c else pos l) ≡ pos (if ltb n l then n else l)
smaller c n l e = rw e (pick (ltb n l) n l)

larger :
    (c : ℤ) (n h : ℕ)
    → c ≡ pos n
    → (if lt_int (pos h) c then c else pos h) ≡ pos (if ltb h n then n else h)
larger c n h e = rw e (pick (ltb h n) n h)

difference :
    (c : ℤ) (most n : ℕ) → c ≡ pos n → n ≤ most → most < two63 → pos most -64 c ≡ pos (most - n)
difference c most n e under h = ap (λ z. pos most -64 z) e ∙ -64_pos most n under h

first_least :
    (c : ℤ) (n : ℕ) → c ≡ pos n → n < two63 → (if lt_int c max_int64 then c else max_int64) ≡ pos n
first_least c n e h = rw e (ground arith)

first_most : (c : ℤ) (n : ℕ) → c ≡ pos n → (if lt_int min_int64 c then c else min_int64) ≡ pos n
first_most c n e = rw e refl

module _ ⦃N : Float64⦄ where
  -- the load of a model whose count is not negative
  abbrev pub load : Model N.F → ℕ
  load m = pos_part (inflight_request_count m)

  -- the count is a number of requests
  abbrev pub IsCount : Model N.F → Type 0
  IsCount m = (inflight_request_count m ≡ pos (load m)) × (load m < two63)

  -- the smallest and the largest load, from the ones so far
  abbrev least_load : ℕ → List (Model N.F) → ℕ
  least_load l [] = l
  least_load l (m ∷ models) = least_load (if ltb (load m) l then load m else l) models

  abbrev most_load : ℕ → List (Model N.F) → ℕ
  most_load h [] = h
  most_load h (m ∷ models) = most_load (if ltb h (load m) then load m else h) models

  -- the smallest of a load and those of the models, and the largest
  abbrev IsLeast : ℕ → List (Model N.F) → ℕ → Type 0
  IsLeast l models x =
      (x ≤ l) × All (λ m. x ≤ load m) models × ((x ≡ l) ⊎ Any (λ m. load m ≡ x) models)

  abbrev IsMost : ℕ → List (Model N.F) → ℕ → Type 0
  IsMost h models x =
      (h ≤ x) × All (λ m. load m ≤ x) models × ((x ≡ h) ⊎ Any (λ m. load m ≡ x) models)

  step_below :
      (b : Bool) (m : Model N.F) (l x : ℕ) (models : List (Model N.F))
      → ltb (load m) l ≡ b
      → IsLeast (if b then load m else l) models x
      → IsLeast l (m ∷ models) x
  step_below true m l x models e (below, all, attained) = (
    let under : load m < l = ground arith in omega arith,
    (below, all),
    elim attained [ inl q ↦ inr (inl (sym q)) | inr a ↦ inr (inr a) ],
  )
  step_below false m l x models e (below, all, attained) = (
    below,
    (let over : l ≤ load m = ground arith in omega arith, all),
    elim attained [ inl q ↦ inl q | inr a ↦ inr (inr a) ],
  )

  step_above :
      (b : Bool) (m : Model N.F) (h x : ℕ) (models : List (Model N.F))
      → ltb h (load m) ≡ b
      → IsMost (if b then load m else h) models x
      → IsMost h (m ∷ models) x
  step_above true m h x models e (above, all, attained) = (
    let over : h < load m = ground arith in omega arith,
    (above, all),
    elim attained [ inl q ↦ inr (inl (sym q)) | inr a ↦ inr (inr a) ],
  )
  step_above false m h x models e (above, all, attained) = (
    above,
    (let under : load m ≤ h = ground arith in omega arith, all),
    elim attained [ inl q ↦ inl q | inr a ↦ inr (inr a) ],
  )

  least_load-IsLeast : (l : ℕ) (models : List (Model N.F)) → IsLeast l models (least_load l models)
  least_load-IsLeast l [] = (omega arith, tt, inl refl)
  least_load-IsLeast l (m ∷ models) =
      step_below (ltb (load m) l) m l _ models refl
        (least_load-IsLeast (if ltb (load m) l then load m else l) models)

  most_load-IsMost : (h : ℕ) (models : List (Model N.F)) → IsMost h models (most_load h models)
  most_load-IsMost h [] = (omega arith, tt, inl refl)
  most_load-IsMost h (m ∷ models) =
      step_above (ltb h (load m)) m h _ models refl
        (most_load-IsMost (if ltb h (load m) then load m else h) models)

  count_range-loads :
      (l h : ℕ) (models : List (Model N.F))
      → All IsCount models
      → count_range models (pos l, pos h) ≡ (pos (least_load l models), pos (most_load h models))
  unfolding count_range
  count_range-loads l h [] a = refl
  count_range-loads l h (m ∷ models) ((e, _), a) =
      ap (count_range models) (λ i. (
        smaller (inflight_request_count m) (load m) l e i,
        larger (inflight_request_count m) (load m) h e i,
      ))
      ∙ count_range-loads (if ltb (load m) l then load m else l)
          (if ltb h (load m) then load m else h) models a

  most_bound :
      (h : ℕ) (models : List (Model N.F))
      → h < two63
      → All IsCount models
      → most_load h models < two63
  most_bound h [] b a = b
  most_bound h (m ∷ models) b ((_, c), a) =
      most_bound (if ltb h (load m) then load m else h) models (ground arith) a

  -- what a score is, between the smallest and the largest load
  abbrev pub ratios : (ℤ → N.F) → ℕ → ℕ → List (Model N.F) → List (Model N.F × N.F)
  ratios of_int least most [] = []
  ratios of_int least most (m ∷ models) =
      (
        m,
        if most == least
            then N.one_f
            else N.div (of_int (pos (most - load m))) (of_int (pos (most - least))),
      )
      ∷ ratios of_int least most models

  load_scores-ratios :
      (of_int : ℤ → N.F) (least most : ℕ) (models : List (Model N.F))
      → All IsCount models
      → All (λ m. load m ≤ most) models
      → least ≤ most
      → most < two63
      → load_scores of_int (pos least, pos most) models ≡ ratios of_int least most models
  unfolding load_scores
  load_scores-ratios of_int least most [] a b l h = refl
  load_scores-ratios of_int least most (m ∷ models) ((e, _), a) (under, b) l h = λ i.
      (
        m,
        if most == least
            then N.one_f
            else N.div (of_int (difference (inflight_request_count m) most (load m) e under h i))
                (of_int (-64_pos most least l h i)),
      )
      ∷ load_scores-ratios of_int least most models a b l h i

  -- The scores of models whose counts are numbers of requests below 2^63: with the smallest and the
  -- largest count, each of which some model has, a model's score is the ratio of the exact
  -- differences, largest less its own over largest less smallest, neither of which wraps; and it is
  -- 1 for all if these two are equal.
  pub score_by_load-ratios :
      (of_int : ℤ → N.F) (m : Model N.F) (models : List (Model N.F))
      → All IsCount (m ∷ models)
      → (least : ℕ) × (most : ℕ) × All (λ k. (least ≤ load k) × (load k ≤ most)) (m ∷ models)
        × Any (λ k. load k ≡ least) (m ∷ models)
        × Any (λ k. load k ≡ most) (m ∷ models)
        × (score_by_load of_int (m ∷ models) ≡ ratios of_int least most (m ∷ models))
  unfolding score_by_load count_range
  score_by_load-ratios of_int m models ((e, bound), a) =
      let (below, least_all, least_any) = least_load-IsLeast (load m) models in
      let (above, most_all, most_any) = most_load-IsMost (load m) models in
      let range : count_range (m ∷ models) (max_int64, min_int64)
          ≡ (pos (least_load (load m) models), pos (most_load (load m) models)) =
        ap (count_range models) (λ i. (
          first_least (inflight_request_count m) (load m) e bound i,
          first_most (inflight_request_count m) (load m) e i,
        ))
        ∙ count_range-loads (load m) (load m) models a in
      (
        least_load (load m) models,
        most_load (load m) models,
        ((below, above), All-both (λ k x y. (x, y)) models least_all most_all),
        elim least_any [ inl q ↦ inl (sym q) | inr k ↦ inr k ],
        elim most_any [ inl q ↦ inl (sym q) | inr k ↦ inr k ],
        ap (λ z. load_scores of_int z (m ∷ models)) range
            ∙ load_scores-ratios of_int _ _ (m ∷ models) ((e, bound), a) (above, most_all)
                (omega arith) (most_bound (load m) models bound a),
      )
