-- ===== src/Tests/Sorting.antt =====
-- A stable sort by insertion: an instance of the sort that the max-score picker calls.
use llm_d_inference_payload.Prelude.{
  true, false, List, [], ◌∷◌, length, suc, All, ◌≡◌, refl, ◌∙◌, ap, arith, Bool-cases, inl, inr,
  if◌then◌else◌,
}
use llm_d_inference_payload.Pickers.Sorting.{Order, is_negative, StrictWeak, IsSorted, StableSort}

module _ {A : Type 0} (cmp : A → A → Order) where
  insert : A → List A → List A
  insert x [] = x ∷ []
  insert x (y ∷ ys) =
      let rest = insert x ys in if is_negative (cmp y x) then y ∷ rest else x ∷ y ∷ ys

  unfoldable pub insertion_sort : List A → List A
  unfolding insert
  insertion_sort [] = []
  insertion_sort (x ∷ xs) = insert x (insertion_sort xs)

  insert-All : (P : A → Type 0) (x : A) (ys : List A) → All P (insert x ys) → P x × All P ys
  unfolding insert
  insert-All P x [] h = h
  insert-All P x (y ∷ ys) h = elim (Bool-cases (is_negative (cmp y x))) [
    | inl e ↦
        let k : All P (y ∷ insert x ys) = rw (e, insert) at h in
        let (p, q) = insert-All P x ys k.1 in (p, (k.0, q))
    | inr e ↦ let k : All P (x ∷ y ∷ ys) = rw (e, insert) at h in (k.0, k.1)
  ]

  All-insert : (P : A → Type 0) (x : A) (ys : List A) → P x → All P ys → All P (insert x ys)
  unfolding insert
  All-insert P x [] p h = (p, tt)
  All-insert P x (y ∷ ys) p h = elim (Bool-cases (is_negative (cmp y x))) [
    | inl e ↦ rw (e, insert) (h.0, All-insert P x ys p h.1)
    | inr e ↦ rw (e, insert) (p, h)
  ]

  length-insert : (x : A) (ys : List A) → length (insert x ys) ≡ suc (length ys)
  unfolding insert
  length-insert x [] = refl
  length-insert x (y ∷ ys) = elim (Bool-cases (is_negative (cmp y x))) [
    | inl e ↦ rw (e, insert) (ap suc (length-insert x ys))
    | inr e ↦ rw (e, insert) refl
  ]

  pub insertion_sort-All : (P : A → Type 0) (xs : List A) → All P (insertion_sort xs) → All P xs
  unfolding insertion_sort
  insertion_sort-All P [] h = tt
  insertion_sort-All P (x ∷ xs) h =
      let (p, q) = insert-All P x (insertion_sort xs) h in (p, insertion_sort-All P xs q)

  pub All-insertion_sort : (P : A → Type 0) (xs : List A) → All P xs → All P (insertion_sort xs)
  unfolding insertion_sort
  All-insertion_sort P [] h = tt
  All-insertion_sort P (x ∷ xs) h =
      All-insert P x (insertion_sort xs) h.0 (All-insertion_sort P xs h.1)

  pub length-insertion_sort : (xs : List A) → length (insertion_sort xs) ≡ length xs
  unfolding insertion_sort
  length-insertion_sort [] = refl
  length-insertion_sort (x ∷ xs) =
      length-insert x (insertion_sort xs) ∙ ap suc (length-insertion_sort xs)

  module _ (P : A → Type 0) (weak : StrictWeak cmp P) where
    not_before :
        (x y : A) → P x → P y → is_negative (cmp y x) ≡ true → is_negative (cmp x y) ≡ false
    not_before x y p q e = elim (Bool-cases (is_negative (cmp x y))) [
      | inl f ↦
          let a = weak.trans x y x p q p f e in let b = weak.irrefl x p in absurd (ground arith)
      | inr f ↦ f
    ]

    none_before :
        (x y : A) (ys : List A)
        → P x
        → P y
        → All P ys
        → is_negative (cmp y x) ≡ false
        → All (λ z. is_negative (cmp z y) ≡ false) ys
        → All (λ z. is_negative (cmp z x) ≡ false) ys
    none_before x y [] p q h e k = tt
    none_before x y (z ∷ ys) p q h e k = (
      (elim (Bool-cases (is_negative (cmp z x))) [
        | inl f ↦ elim (weak.either z y x h.0 q p f) [
          | inl g ↦ let k0 = k.0 in absurd (ground arith)
          | inr g ↦ absurd (ground arith)
        ]
        | inr f ↦ f
      ]),
      none_before x y ys p q h.1 e k.1,
    )

    insert-IsSorted :
        (x : A) (ys : List A) → P x → All P ys → IsSorted cmp ys → IsSorted cmp (insert x ys)
    unfolding insert
    insert-IsSorted x [] p h s = (tt, tt)
    insert-IsSorted x (y ∷ ys) p h s = elim (Bool-cases (is_negative (cmp y x))) [
      | inl e ↦
          rw (e, insert)
            (
              All-insert (λ z. is_negative (cmp z y) ≡ false) x ys (not_before x y p h.0 e) s.0,
              insert-IsSorted x ys p h.1 s.1,
            )
      | inr e ↦ rw (e, insert) ((e, none_before x y ys p h.0 h.1 e s.0), s)
    ]

    pub insertion_sort-IsSorted : (xs : List A) → All P xs → IsSorted cmp (insertion_sort xs)
    unfolding insertion_sort
    insertion_sort-IsSorted [] h = tt
    insertion_sort-IsSorted (x ∷ xs) h =
        insert-IsSorted x (insertion_sort xs) h.0 (All-insertion_sort P xs h.1)
          (insertion_sort-IsSorted xs h.1)

abbrev pub by_insertion : StableSort
by_insertion = record {
  sort_stable_func = λ cmp xs. insertion_sort cmp xs;
  sort-All = λ cmp P xs h. insertion_sort-All cmp P xs h;
  All-sort = λ cmp P xs h. All-insertion_sort cmp P xs h;
  length-sort = λ cmp xs. length-insertion_sort cmp xs;
  sort-IsSorted = λ cmp P xs weak h. insertion_sort-IsSorted cmp P weak xs h;
}
