-- ===== src/Handlers/Response/Bodies.antt =====
-- pkg/handlers/response.go, `HandleResponseBody`: the bytes that the answer sends on.
use llm_d_inference_payload.Prelude.{
  Bytes, bytes_dec, itoa, length, is_empty, StringSet, Float64, true, false, ◌&&◌, List, [], ◌∷◌,
  ◌++◌, Option, some, ◌⊎◌, inl, inr, ◌≡◌, refl, sym, ap, subst, ◌∙◌, Option-cases, Bool-cases,
  Sum-cases, append-nil, append_assoc,
}
use llm_d_inference_payload.Prelude.Map
use llm_d_inference_payload.Envoy.{
  CommonResponse, ProcessingResponse, response_headers, response_body,
}
use llm_d_inference_payload.Envoy.Chunking.{build_chunked_body_responses}
use llm_d_inference_payload.Envoy.Chunking.Laws.{
  bytes_of, joined, joined-build_chunked_body_responses,
}
use llm_d_inference_payload.Errors.{Result, ok, err, panic}
use llm_d_inference_payload.Errors.Cases.{Result-cases}
use llm_d_inference_payload.Message.{set_header}
use llm_d_inference_payload.Handlers.{Server, RequestContext, content_length_header}
use llm_d_inference_payload.Handlers.Request.Laws.{set_header-get, set_header_body}
use llm_d_inference_payload.Handlers.Response.{
  add_response_bodies, add_streamed_response_body, body_responses, run_response_plugins,
  generate_passthrough_response_body_response, finish_response, process_response_body, with_body,
  handle_response_body,
}
use llm_d_inference_payload.Handlers.Sse.{parse_sse_response_body}

-- the bytes of the response-body responses, put together
unfoldable pub sent_response : List ProcessingResponse → Bytes
sent_response [] = []
sent_response (response_body r ∷ rs) = bytes_of r ++ sent_response rs
sent_response (_ ∷ rs) = sent_response rs

sent_response-append :
    (rs ss : List ProcessingResponse)
    → sent_response (rs ++ ss) ≡ sent_response rs ++ sent_response ss
unfolding sent_response
sent_response-append [] ss = refl
sent_response-append (response_body r ∷ rs) ss =
    ap (◌++◌ (bytes_of r)) (sent_response-append rs ss) ∙ sym (append_assoc (bytes_of r) _ _)
sent_response-append (_ ∷ rs) ss = sent_response-append rs ss

sent_response-add_response_bodies :
    (rs : List ProcessingResponse) (cs : List CommonResponse)
    → sent_response (add_response_bodies rs cs) ≡ sent_response rs ++ joined cs
unfolding add_response_bodies
sent_response-add_response_bodies rs [] = sym (append-nil (sent_response rs))
sent_response-add_response_bodies rs (c ∷ cs) =
    sent_response-add_response_bodies (rs ++ response_body c ∷ []) cs
    ∙ rw (sent_response-append rs (response_body c ∷ []), append_assoc)
        (unfold sent_response in
          ap (λ x. sent_response rs ++ (x ++ joined cs)) (append-nil (bytes_of c)))

sent_response-streamed :
    (r : Option CommonResponse) (body : Bytes)
    → sent_response (add_streamed_response_body (response_headers r ∷ []) body) ≡ body
unfolding add_streamed_response_body
sent_response-streamed r body =
    sent_response-add_response_bodies (response_headers r ∷ [])
      (build_chunked_body_responses body true)
    ∙ unfold sent_response in joined-build_chunked_body_responses body true

module _ ⦃S : StringSet⦄ ⦃N : Float64⦄ {W : Type 0} where
  -- The answer `rs` to the body `bytes`, with the context `ctx` afterwards: the bytes received, or
  -- the encoding of a flagged body, with its length among the headers.
  abbrev pub Forwards : Server W → Bytes → RequestContext W → List ProcessingResponse → Type 0
  Forwards s bytes ctx rs =
      ((ctx.response.body_mutated ≡ false) × (sent_response rs ≡ bytes))
      ⊎ ((ctx.response.body_mutated ≡ true)
          × (s.marshal ctx.response.body ≡ inl (sent_response rs))
          × (Map.get bytes_dec content_length_header ctx.response.headers
              ≡ some (itoa (length (sent_response rs)))))

  abbrev ForwardsIfOk :
      Server W → Bytes → RequestContext W → Result (List ProcessingResponse) → Type 0
  ForwardsIfOk s bytes ctx (ok rs) = Forwards s bytes ctx rs
  ForwardsIfOk s bytes ctx (err e) = Unit
  ForwardsIfOk s bytes ctx panic = Unit

  passthrough-Forwards :
      (s : Server W) (ctx : RequestContext W) (bytes : Bytes)
      → ctx.response.body_mutated ≡ false
      → Forwards s bytes ctx (generate_passthrough_response_body_response ctx bytes)
  unfolding generate_passthrough_response_body_response
  passthrough-Forwards s ctx bytes h = inl (h, sent_response-streamed _ bytes)

  mutated-Forwards :
      (s : Server W) (ctx : RequestContext W) (bytes sent : Bytes)
      → ctx.response.body_mutated ≡ true
      → s.marshal ctx.response.body ≡ inl sent
      → let m = set_header ctx.response.message content_length_header (itoa (length sent)) in
        Forwards s bytes
          (record ctx { response = record ctx.response { message = m } })
          (body_responses m sent)
  unfolding body_responses
  mutated-Forwards s ctx bytes sent flag q =
      let old = ctx.response.message in
      let n = itoa (length sent) in
      let same = sent_response-streamed _ sent in
      let kept = set_header_body old content_length_header n in
      inr (
        kept.1 ∙ flag,
        ap s.marshal kept.0 ∙ q ∙ ap inl (sym same),
        rw same (set_header-get old content_length_header n),
      )

  finish_response-Forwards :
      (s : Server W) (ctx : RequestContext W) (bytes : Bytes) (w : W)
      → let (ctx', w', r) = finish_response s ctx bytes w in ForwardsIfOk s bytes ctx' r
  unfolding finish_response body_responses
  finish_response-Forwards s ctx bytes w = elim (Bool-cases ctx.response.body_mutated) [
    | inr flag ↦ rw (flag, finish_response) (inl (flag, sent_response-streamed _ bytes))
    | inl flag ↦ elim (Sum-cases (s.marshal ctx.response.body)) [
      | inr (text, q) ↦ rw (flag, q, finish_response) tt
      | inl (sent, q) ↦ rw (flag, q, finish_response) (mutated-Forwards s ctx bytes sent flag q)
    ]
  ]

  process_response_body-Forwards :
      (s : Server W) (ctx : RequestContext W) (bytes : Bytes) (w : W)
      → let (ctx', w', r) = process_response_body s ctx bytes w in ForwardsIfOk s bytes ctx' r
  unfolding process_response_body
  process_response_body-Forwards s ctx bytes w =
      let (response, w₁, r) = run_response_plugins ctx.profile.response_plugins ctx.response w in
      let (response', w₂, r') = run_response_plugins s.post_processors response w₁ in
      elim (Result-cases r) [
        | inr (inl (x, e)) ↦ rw (e, process_response_body) tt
        | inr (inr e) ↦ rw (e, process_response_body) tt
        | inl (_, e) ↦ elim (Result-cases r') [
          | inr (inl (x, q)) ↦ rw (e, q, process_response_body) tt
          | inr (inr q) ↦ rw (e, q, process_response_body) tt
          | inl (_, q) ↦
              rw (e, q, process_response_body)
                (finish_response-Forwards s (record ctx { response = response' }) bytes w₂)
        ]
      ]

  handle_response_body-ForwardsIfOk :
      (s : Server W) (ctx : RequestContext W) (bytes : Bytes) (w : W)
      → ctx.response.body_mutated ≡ false
      → let (ctx', w', r) = handle_response_body s ctx bytes w in ForwardsIfOk s bytes ctx' r
  unfolding handle_response_body
  handle_response_body-ForwardsIfOk s ctx bytes w h =
      let skip = is_empty ctx.profile.response_plugins && is_empty s.post_processors in
      let (body, failure) = s.unmarshal bytes ctx.response.body in
      elim (Bool-cases skip) [
        | inl n ↦ rw (n, handle_response_body) (passthrough-Forwards s ctx bytes h)
        | inr n ↦ elim (Option-cases failure) [
          | inl f ↦
              rw (n, f, handle_response_body)
                (process_response_body-Forwards s (with_body ctx body) bytes w)
          | inr (text, f) ↦ elim (Option-cases (parse_sse_response_body s.unmarshal bytes)) [
            | inl p ↦
                rw (n, f, p, handle_response_body)
                  (passthrough-Forwards s (with_body ctx body) bytes h)
            | inr (sse_body, p) ↦
                rw (n, f, p, handle_response_body)
                  (process_response_body-Forwards s (with_body ctx (some sse_body)) bytes w)
          ]
        ]
      ]

  -- Whatever the plugins do, if the response body is not flagged before: if the handler of the
  -- response body answers, then the body bytes that the answer sends on are the bytes received, if
  -- no plugin has flagged the body (so also if they are neither JSON nor events, and nothing runs),
  -- and otherwise the encoding of the body as the plugins left it, with its length as the
  -- `Content-Length` among the headers.
  pub handle_response_body-Forwards :
      (s : Server W) (ctx ctx' : RequestContext W) (bytes : Bytes) (w w' : W)
      (rs : List ProcessingResponse)
      → ctx.response.body_mutated ≡ false
      → handle_response_body s ctx bytes w ≡ (ctx', w', ok rs)
      → Forwards s bytes ctx' rs
  handle_response_body-Forwards s ctx ctx' bytes w w' rs h e =
      subst (λ t. ForwardsIfOk s bytes t.0 t.2) e
        (handle_response_body-ForwardsIfOk s ctx bytes w h)
