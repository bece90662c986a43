-- ===== src/Pickers/Sorting.antt =====
-- `slices.SortStableFunc` of the Go library, which the max-score picker calls: what its
-- documentation says of it, for a comparison that is a strict weak order.
use llm_d_inference_payload.Prelude.{Bool, true, false, List, [], ◌∷◌, length, All, ◌≡◌, ◌⊎◌}

-- what a comparison returns: a negative number, 0 or a positive one
pub data Order : Type 0 where
  negative zero positive : Order

abbrev pub is_negative : Order → Bool
is_negative negative = true
is_negative zero = false
is_negative positive = false

module _ {A : Type 0} (cmp : A → A → Order) where
  -- the comparison is a strict weak order on the values of `P`
  pub record StrictWeak (P : A → Type 0) : Type 0 where
    pub irrefl : (x : A) → P x → is_negative (cmp x x) ≡ false
    pub trans :
        (x y z : A)
        → P x
        → P y
        → P z
        → is_negative (cmp x y) ≡ true
        → is_negative (cmp y z) ≡ true
        → is_negative (cmp x z) ≡ true
    pub either :
        (x y z : A)
        → P x
        → P y
        → P z
        → is_negative (cmp x z) ≡ true
        → (is_negative (cmp x y) ≡ true) ⊎ (is_negative (cmp y z) ≡ true)

  -- no entry is before an earlier one
  abbrev pub IsSorted : List A → Type 0
  IsSorted [] = Unit
  IsSorted (x ∷ xs) = All (λ y. is_negative (cmp y x) ≡ false) xs × IsSorted xs

-- The sort rearranges the entries, whatever the comparison is; the result is sorted for a strict
-- weak order.
pub record StableSort : Type 1 where
  pub sort_stable_func : {A : Type 0} → (A → A → Order) → List A → List A
  pub sort-All :
      {A : Type 0} (cmp : A → A → Order) (P : A → Type 0) (xs : List A)
      → All P (sort_stable_func cmp xs)
      → All P xs
  pub All-sort :
      {A : Type 0} (cmp : A → A → Order) (P : A → Type 0) (xs : List A)
      → All P xs
      → All P (sort_stable_func cmp xs)
  pub length-sort :
      {A : Type 0} (cmp : A → A → Order) (xs : List A)
      → length (sort_stable_func cmp xs) ≡ length xs
  pub sort-IsSorted :
      {A : Type 0} (cmp : A → A → Order) (P : A → Type 0) (xs : List A)
      → StrictWeak cmp P
      → All P xs
      → IsSorted cmp (sort_stable_func cmp xs)
