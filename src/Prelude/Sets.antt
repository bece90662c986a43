-- ===== src/Prelude/Sets.antt =====
-- `sets.Set[string]` of k8s.io/apimachinery, which the repository only calls: a carrier with the
-- operations that the source uses, and their documented behaviour, read through `has`.
use mathlib.Core.Path.{◌≡◌, refl}
use mathlib.Core.Logic.{ite}
use mathlib.Core.Bool.{Bool, true, false}
use mathlib.Core.List.{List, [], ◌∷◌}
use native.Mathlib.Omega.{arith}
use llm_d_inference_payload.Prelude.Tests.{if◌then◌else◌}
use llm_d_inference_payload.Prelude.Text.{Bytes, bytes_dec}

unfoldable pub contains : Bytes → List Bytes → Bool
contains k [] = false
contains k (x ∷ xs) = ite (bytes_dec x k) true (contains k xs)

pub record StringSet : Type 1 where
  pub Set : Type 0
  pub new : Set
  pub has : Set → Bytes → Bool
  pub insert : Bytes → Set → Set
  pub delete : Bytes → Set → Set
  -- the elements of the first that are not in the second
  pub difference : Set → Set → Set
  -- the elements, in no particular order
  pub unsorted_list : Set → List Bytes
  pub has-new : (k : Bytes) → has new k ≡ false
  pub has-insert : (k j : Bytes) (s : Set) → has (insert k s) j ≡ ite (bytes_dec k j) true (has s j)
  pub has-delete :
      (k j : Bytes) (s : Set) → has (delete k s) j ≡ ite (bytes_dec k j) false (has s j)
  pub has-difference :
      (s t : Set) (k : Bytes) → has (difference s t) k ≡ (if has t k then false else has s k)
  pub contains-unsorted_list : (s : Set) (k : Bytes) → contains k (unsorted_list s) ≡ has s k

-- A set as the list of its elements: the interface can be met, and it runs in tests.
unfoldable pub remove : Bytes → List Bytes → List Bytes
remove k [] = []
remove k (x ∷ xs) = let rest = remove k xs in ite (bytes_dec x k) rest (x ∷ rest)

unfoldable pub without : List Bytes → List Bytes → List Bytes
without [] ys = []
without (x ∷ xs) ys = let rest = without xs ys in if contains x ys then rest else x ∷ rest

pub contains-remove :
    (k j : Bytes) (s : List Bytes)
    → contains j (remove k s) ≡ ite (bytes_dec k j) false (contains j s)
unfolding contains remove
contains-remove k j [] = ground arith
contains-remove k j (x ∷ s) = ground (arith, contains-remove k j s)

pub contains-without :
    (s t : List Bytes) (k : Bytes)
    → contains k (without s t) ≡ (if contains k t then false else contains k s)
unfolding contains without
contains-without [] t k = ground arith
contains-without (x ∷ s) t k = ground (arith, contains-without s t k)

unfoldable pub list_set : StringSet
unfolding contains remove without
list_set = record {
  Set = List Bytes;
  new = [];
  has = λ s k. contains k s;
  insert = ◌∷◌;
  delete = remove;
  difference = without;
  unsorted_list = λ s. s;
  has-new = λ k. refl;
  has-insert = λ k j s. refl;
  has-delete = contains-remove;
  has-difference = contains-without;
  contains-unsorted_list = λ s k. refl;
}
