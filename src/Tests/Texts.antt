-- ===== src/Tests/Texts.antt =====
-- Go strings.
use llm_d_inference_payload.Prelude.{
  bytes_dec, codes, trim_space, itoa, true, false, ite, ◌≡◌, refl,
}

dec_test : ite (bytes_dec (codes "abc") (codes "abc")) true false ≡ true
unfolding bytes_dec
dec_test = refl

trim_test : trim_space (codes " a b ") ≡ codes "a b"
unfolding trim_space
trim_test = refl

itoa_test : itoa 62000 ≡ codes "62000"
unfolding itoa
itoa_test = refl
