-- ===== src/Message/Headers.antt =====
-- pkg/framework/interface/requesthandling/types.go, `SetHeader`: the header afterwards.
use llm_d_inference_payload.Prelude.{
  Bytes, bytes_dec, StringSet, some, ◌≡◌, ap, ◌∙◌, inl, inr, if_pos, if_neg, Option-cases,
}
use llm_d_inference_payload.Prelude.Map
use llm_d_inference_payload.Message.{Message, write_header, set_header}

module _ ⦃S : StringSet⦄ {V : Type 0} where
  pub get-set_header :
      (r : Message V) (key value : Bytes)
      → Map.get bytes_dec key (set_header r key value).headers ≡ some value
  unfolding set_header write_header
  get-set_header r key value = elim (Option-cases (Map.get bytes_dec key r.headers)) [
    | inl e ↦ rw (e, set_header) (Map.get-put_self bytes_dec key value r.headers)
    | inr (old, e) ↦ elim (bytes_dec old value) [
      | yes p ↦
          rw (e, set_header, if_pos (bytes_dec old value) p r (write_header r key value))
            (e ∙ ap some p)
      | no p ↦
          rw (e, set_header, if_neg (bytes_dec old value) p r (write_header r key value))
            (Map.get-put_self bytes_dec key value r.headers)
    ]
  ]
