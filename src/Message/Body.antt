-- ===== src/Message/Body.antt =====
-- pkg/framework/interface/requesthandling/types.go: what the flag `bodyMutated` says of the body.
use llm_d_inference_payload.Prelude.{
  Bytes, StringSet, true, false, Option, none, some, List, [], ◌∷◌, ◌≡◌, arith, Option-cases, inl,
  inr,
}
use llm_d_inference_payload.Prelude.Map.{Map}
use llm_d_inference_payload.Message.{Message, set_body, set_body_field, remove_body_field}

-- A plugin's edits of the body.
pub data BodyEdit (V : Type 0) : Type 0 where
  replace : Option (Map Bytes V) → BodyEdit V
  set : Bytes → V → BodyEdit V
  remove : Bytes → BodyEdit V

module _ ⦃S : StringSet⦄ {V : Type 0} where
  -- `none` is the panic of a write to a nil map.
  unfoldable pub edit_body : Message V → List (BodyEdit V) → Option (Message V)
  edit_body m [] = some m
  edit_body m (replace b ∷ es) = edit_body (set_body m b) es
  edit_body m (set k v ∷ es) = elim (set_body_field m k v) [
    | none ↦ none
    | some m' ↦ edit_body m' es
  ]
  edit_body m (remove k ∷ es) = edit_body (remove_body_field m k) es

  -- `m'` differs from `m` at most in a body that is flagged.
  abbrev Flagged : Message V → Message V → Type 0
  Flagged m m' =
      (m'.headers ≡ m.headers)
      × (m'.mutated_headers ≡ m.mutated_headers)
      × (m'.removed_headers ≡ m.removed_headers)
      × (m'.body_mutated ≡ false → (m'.body ≡ m.body) × (m.body_mutated ≡ false))

  remove_body_field-Flagged : (m : Message V) (k : Bytes) → Flagged m (remove_body_field m k)
  unfolding remove_body_field
  remove_body_field-Flagged m k = ground arith

  set_body_field-flag :
      (m : Message V) (k : Bytes) (v : V) {m' : Message V}
      → set_body_field m k v ≡ some m'
      → Flagged m m' × (m'.body_mutated ≡ true)
  unfolding set_body_field
  set_body_field-flag m k v e = ground arith

  -- Any sequence of body edits leaves the header records alone, and if the flag is still down
  -- afterwards, it was down before and the body is the one before the edits.
  pub edit_body-Flagged :
      (m : Message V) (es : List (BodyEdit V)) {m' : Message V}
      → edit_body m es ≡ some m'
      → (m'.headers ≡ m.headers)
        × (m'.mutated_headers ≡ m.mutated_headers)
        × (m'.removed_headers ≡ m.removed_headers)
        × (m'.body_mutated ≡ false → (m'.body ≡ m.body) × (m.body_mutated ≡ false))
  unfolding edit_body set_body
  edit_body-Flagged m [] e = ground arith
  edit_body-Flagged m (replace b ∷ es) e =
      let ih = edit_body-Flagged (set_body m b) es e in ground arith
  edit_body-Flagged m (set k v ∷ es) {m'} e = elim (Option-cases (set_body_field m k v)) [
    | inl q ↦ absurd (ground arith)
    | inr (m₁, q) ↦
        let e' : edit_body m₁ es ≡ some m' = ground arith in
        ground (arith, edit_body-Flagged m₁ es {m' = m'} e', set_body_field-flag m k v {m' = m₁} q)
  ]
  edit_body-Flagged m (remove k ∷ es) e =
      let ih = edit_body-Flagged (remove_body_field m k) es e in
      let one = remove_body_field-Flagged m k in ground arith
