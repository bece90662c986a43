-- ===== src/Prelude/Map.antt =====
-- Go maps as association lists. A read and a write go by the first entry of a key; the order of
-- the list stands for the order in which a `range` loop visits the map.
use mathlib.Core.Path.{◌≡◌, refl, sym, ◌∙◌}
use mathlib.Core.Logic.{ite, if_pos, if_neg}
use mathlib.Core.Option.{Option, none, some}
use mathlib.Core.List.{List, [], ◌∷◌}
use native.Mathlib.Omega.{arith}
use llm_d_inference_payload.Prelude.Lists.{All, All-weaken}

abbrev pub Map {ℓ} : Type ℓ → Type ℓ → Type ℓ
Map K V = List (K × V)

module _ {ℓ} {K V : Type ℓ} (dec : Discrete K) where
  -- `m[k]`, with the comma-ok form's flag
  unfoldable pub get : K → Map K V → Option V
  get k [] = none
  get k ((j, v) ∷ m) = ite (dec j k) (some v) (get k m)

  -- `m[k] = v`
  unfoldable pub put : K → V → Map K V → Map K V
  put k v [] = (k, v) ∷ []
  put k v ((j, w) ∷ m) = ite (dec j k) ((k, v) ∷ m) ((j, w) ∷ put k v m)

  -- `delete(m, k)`
  unfoldable pub delete : K → Map K V → Map K V
  delete k [] = []
  delete k ((j, w) ∷ m) = let rest = delete k m in ite (dec j k) rest ((j, w) ∷ rest)

  pub get-put :
      (k j : K) (v : V) (m : Map K V) → get j (put k v m) ≡ ite (dec k j) (some v) (get j m)
  unfolding get put
  get-put k j v [] = refl
  get-put k j v ((i, w) ∷ m) = ground (arith, get-put k j v m)

  pub get-put_self : (k : K) (v : V) (m : Map K V) → get k (put k v m) ≡ some v
  get-put_self k v m = ground (arith, get-put k k v m)

  pub get-delete : (k j : K) (m : Map K V) → get j (delete k m) ≡ ite (dec k j) none (get j m)
  unfolding get delete
  get-delete k j [] = ground arith
  get-delete k j ((i, w) ∷ m) = ground (arith, get-delete k j m)

  -- No key has two entries, as in a Go map.
  abbrev pub NodupKeys : Map K V → Type ℓ
  NodupKeys [] = Unit
  NodupKeys ((k, v) ∷ m) = (get k m ≡ none) × NodupKeys m

  pub put-NodupKeys : (k : K) (v : V) (m : Map K V) → NodupKeys m → NodupKeys (put k v m)
  unfolding get put
  put-NodupKeys k v [] h = (refl, tt)
  put-NodupKeys k v ((j, w) ∷ m) h = elim (dec j k) [
    | yes p ↦ rw (if_pos _ p) (rw (← p) h.0, h.1)
    | no p ↦
        rw (if_neg _ p)
          (get-put k j v m ∙ if_neg (dec k j) (λ e. p (sym e)) _ _ ∙ h.0, put-NodupKeys k v m h.1)
  ]

  pub All-put :
      (P : K × V → Type 0) (k : K) (v : V) (m : Map K V) → P (k, v) → All P m → All P (put k v m)
  unfolding put
  All-put P k v [] p h = (p, tt)
  All-put P k v ((j, w) ∷ m) p h = elim (dec j k) [
    | yes e ↦ rw (if_pos _ e) (p, h.1)
    | no e ↦ rw (if_neg _ e) (h.0, All-put P k v m p h.1)
  ]

  pub All-get :
      (P : K × V → Type 0) (k : K) {v : V} (m : Map K V) → All P m → get k m ≡ some v → P (k, v)
  unfolding get
  All-get P k [] h e = absurd (ground arith)
  All-get P k {v} ((j, w) ∷ m) h e = elim (dec j k) [
    | yes p ↦
        let q : some w ≡ some v = sym (if_pos (dec j k) p _ _) ∙ e in
        let r : w ≡ v = cc in rw (← p, ← r) h.0
    | no p ↦ All-get P k m h.1 (sym (if_neg (dec j k) p _ _) ∙ e)
  ]

  -- Without repeated keys every entry is what a read of its key finds.
  pub get_self : (m : Map K V) → NodupKeys m → All (λ e. get e.0 m ≡ some e.1) m
  unfolding get
  get_self [] d = tt
  get_self ((j, w) ∷ m) d = (
    if_pos (dec j j) refl _ _,
    All-weaken
        (λ e q. elim (dec j e.0) [
          | yes p ↦ let miss : get e.0 m ≡ none = rw (← p) d.0 in absurd (ground arith)
          | no p ↦ if_neg (dec j e.0) p _ _ ∙ q
        ])
        m (get_self m d.1),
  )
