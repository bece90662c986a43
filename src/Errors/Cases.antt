-- ===== src/Errors/Cases.antt =====
-- Case splits on the outcome of a call that keep the equation, and what the outcome of a chain of
-- calls says of its parts.
use llm_d_inference_payload.Prelude.{
  ◌≡◌, ◌⊎◌, inl, inr, refl, Bool, true, false, if◌then◌else◌, arith,
}
use llm_d_inference_payload.Errors.{GoError, Result, ok, err, panic, ◌>>=◌}

pub Result-cases {ℓ} :
    {A : Type ℓ} (r : Result A)
    → ((a : A) × (r ≡ ok a)) ⊎ ((e : GoError) × (r ≡ err e)) ⊎ (r ≡ panic)
Result-cases (ok a) = inl (a, refl)
Result-cases (err e) = inr (inl (e, refl))
Result-cases panic = inr (inr refl)

module _ {ℓ} {A : Type ℓ} where
  pub ok_inj : {a b : A} → ok a ≡ ok b → a ≡ b
  ok_inj h = cc

  pub bind_ok {κ} :
      {B : Type κ} (m : Result A) (f : A → Result B) (b : B)
      → (m >>= f) ≡ ok b
      → (a : A) × (m ≡ ok a) × (f a ≡ ok b)
  bind_ok (ok a) f b h = (a, refl, h)
  bind_ok (err e) f b h = absurd (ground arith)
  bind_ok panic f b h = absurd (ground arith)

  -- a guard that returns an error
  pub guard_ok :
      (t : Bool) (e : GoError) (r : Result A) (a : A)
      → (if t then err e else r) ≡ ok a
      → (t ≡ false) × (r ≡ ok a)
  guard_ok true e r a h = absurd (ground arith)
  guard_ok false e r a h = (refl, h)

  pub unless_ok :
      (t : Bool) (e : GoError) (r : Result A) (a : A)
      → (if t then r else err e) ≡ ok a
      → (t ≡ true) × (r ≡ ok a)
  unless_ok true e r a h = (refl, h)
  unless_ok false e r a h = absurd (ground arith)
