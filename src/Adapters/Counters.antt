-- ===== src/Adapters/Counters.antt =====
-- pkg/framework/plugins/requesthandling/basemodelextractor/adapters_store.go: the counters of the
-- base models.
use llm_d_inference_payload.Prelude.{
  ℤ, pos, Bytes, bytes_dec, ℕ, suc, Bool, true, false, Option, none, some, if◌then◌else◌, ◌≡◌, refl,
  ap, subst, ◌∙◌, arith, Option-cases, inl, inr,
}
use llm_d_inference_payload.Prelude.Map
use llm_d_inference_payload.Prelude.Map.{Map, get-put, get-put_self, get-delete}
use llm_d_inference_payload.Adapters.{increment, decrement, is_one, count_base, uncount_base}

pub if-if :
    {A : Type 0} (b : Bool) (x y z : A)
    → (if b then x else if b then y else z) ≡ (if b then x else z)
if-if true x y z = refl
if-if false x y z = refl

pub none_either :
    (x : Option Bytes) (a b : Bool) → x ≡ none → (if a then none else if b then none else x) ≡ none
none_either x true b e = refl
none_either x false true e = refl
none_either x false false e = e

-- a counter that stands in the store is at least one
abbrev pub Counted : Option ℤ → Type 0
Counted none = Unit
Counted (some count) = (n : ℕ) × (count ≡ pos (suc n))

pub count_base_new :
    (base : Bytes) (m : Map Bytes ℤ)
    → Map.get bytes_dec base m ≡ none
    → count_base base m ≡ Map.put bytes_dec base (pos 1) m
unfolding count_base
count_base_new base m e = rw (e, count_base)

pub count_base_old :
    (base : Bytes) {count : ℤ} (m : Map Bytes ℤ)
    → Map.get bytes_dec base m ≡ some count
    → count_base base m ≡ Map.put bytes_dec base (increment count) m
unfolding count_base
count_base_old base m e = rw (e, count_base)

pub uncount_base_one :
    (base : Bytes) {count : ℤ} (m : Map Bytes ℤ)
    → Map.get bytes_dec base m ≡ some count
    → uncount_base base m ≡ (
        if is_one count
        then Map.delete bytes_dec base m
        else Map.put bytes_dec base (decrement count) m)
unfolding uncount_base
uncount_base_one base m e = rw (e, uncount_base)

pub get-put_back :
    (base k : Bytes) {v : ℤ} (w : ℤ) (m : Map Bytes ℤ)
    → Map.get bytes_dec base m ≡ some v
    → Map.get bytes_dec k (Map.put bytes_dec base v (Map.put bytes_dec base w m))
      ≡ Map.get bytes_dec k m
get-put_back base k {v} w m e =
    ground
      (arith, get-put bytes_dec base k v (Map.put bytes_dec base w m), get-put bytes_dec base k w m)

pub get-delete_back :
    (base k : Bytes) (w : ℤ) (m : Map Bytes ℤ)
    → Map.get bytes_dec base m ≡ none
    → Map.get bytes_dec k (Map.delete bytes_dec base (Map.put bytes_dec base w m))
      ≡ Map.get bytes_dec k m
get-delete_back base k w m e =
    ground (
      arith,
      get-delete bytes_dec base k (Map.put bytes_dec base w m),
      get-put bytes_dec base k w m,
    )

pub many_not_one : (n : ℕ) → is_one (pos (suc (suc n))) ≡ false
many_not_one n = ground arith

pub uncount_base_new :
    (base : Bytes) (m : Map Bytes ℤ)
    → Map.get bytes_dec base m ≡ none
    → uncount_base base m ≡ Map.put bytes_dec base (decrement (pos 0)) m
unfolding uncount_base
uncount_base_new base m e = rw (e, uncount_base)

pub uncount-count :
    (base k : Bytes) (m : Map Bytes ℤ)
    → Counted (Map.get bytes_dec base m)
    → Map.get bytes_dec k (uncount_base base (count_base base m)) ≡ Map.get bytes_dec k m
uncount-count base k m h = elim (Option-cases (Map.get bytes_dec base m)) [
  | inl e ↦
      rw (count_base_new base m e, uncount_base_one base _ (get-put_self bytes_dec base (pos 1) m))
        (get-delete_back base k (pos 1) m e)
  | inr (count, e) ↦
      let (n, q) : Counted (some count) = subst Counted e h in
      rw
        (
          count_base_old base m e,
          q,
          uncount_base_one base _ (get-put_self bytes_dec base (pos (suc (suc n))) m),
          many_not_one n,
        )
        (get-put_back base k (pos (suc (suc n))) m (e ∙ ap some q))
]
