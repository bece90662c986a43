-- ===== src/Handlers/Request/Laws.antt =====
-- pkg/handlers/request.go: what the handlers answer.
use llm_d_inference_payload.Prelude.{
  Bytes, bytes_dec, itoa, StringSet, Float64, true, false, List, [], ◌∷◌, ◌++◌, Option, none, some,
  inl, inr, ◌⊎◌, ◌≡◌, refl, sym, ap, subst, ◌∙◌, length, arith, Option-cases, Bool-cases, Sum-cases,
  append-nil, append_assoc, if_pos, if_neg,
}
use llm_d_inference_payload.Prelude.Map
use llm_d_inference_payload.Envoy.{
  CommonResponse, ProcessingResponse, request_body, request_headers,
}
use llm_d_inference_payload.Envoy.Chunking.{build_chunked_body_responses}
use llm_d_inference_payload.Envoy.Chunking.Laws.{
  bytes_of, joined, joined-build_chunked_body_responses,
}
use llm_d_inference_payload.Errors.{Result, ok, err, panic}
use llm_d_inference_payload.Errors.Cases.{Result-cases}
use llm_d_inference_payload.Message.{Message, set_header, write_header}
use llm_d_inference_payload.Handlers.{Server, RequestContext, content_length_header}
use llm_d_inference_payload.Handlers.Request.{
  header_mutation, add_body_responses, add_streamed_body_response, run_request_plugins,
  finish_request, run_profile, pick_profile, handle_request_body,
}

-- the bytes of the request-body responses, put together
unfoldable pub sent_body : List ProcessingResponse → Bytes
sent_body [] = []
sent_body (request_body r ∷ rs) = bytes_of r ++ sent_body rs
sent_body (_ ∷ rs) = sent_body rs

sent_body-append :
    (rs ss : List ProcessingResponse) → sent_body (rs ++ ss) ≡ sent_body rs ++ sent_body ss
unfolding sent_body
sent_body-append [] ss = refl
sent_body-append (request_body r ∷ rs) ss =
    ap (◌++◌ (bytes_of r)) (sent_body-append rs ss) ∙ sym (append_assoc (bytes_of r) _ _)
sent_body-append (_ ∷ rs) ss = sent_body-append rs ss

sent_body-add_body_responses :
    (rs : List ProcessingResponse) (cs : List CommonResponse)
    → sent_body (add_body_responses rs cs) ≡ sent_body rs ++ joined cs
unfolding add_body_responses
sent_body-add_body_responses rs [] = sym (append-nil (sent_body rs))
sent_body-add_body_responses rs (c ∷ cs) =
    sent_body-add_body_responses (rs ++ request_body c ∷ []) cs
    ∙ rw (sent_body-append rs (request_body c ∷ []), append_assoc)
        (unfold sent_body in ap (λ x. sent_body rs ++ (x ++ joined cs)) (append-nil (bytes_of c)))

pub set_header-get :
    ⦃S : StringSet⦄ {V : Type 0} (m : Message V) (k v : Bytes)
    → Map.get bytes_dec k (set_header m k v).headers ≡ some v
unfolding set_header
set_header-get m k v = elim (Option-cases (Map.get bytes_dec k m.headers)) [
  | inl e ↦ rw (e, set_header) (Map.get-put_self bytes_dec k v m.headers)
  | inr (old, e) ↦ elim (bytes_dec old v) [
    | yes p ↦ rw (e, set_header, if_pos (bytes_dec old v) p m (write_header m k v)) (e ∙ ap some p)
    | no p ↦
        rw (e, set_header, if_neg (bytes_dec old v) p m (write_header m k v))
          (Map.get-put_self bytes_dec k v m.headers)
  ]
]

sent_body-streamed :
    (r : Option CommonResponse) (body : Bytes)
    → sent_body (add_streamed_body_response (request_headers r ∷ []) body) ≡ body
unfolding add_streamed_body_response
sent_body-streamed r body =
    sent_body-add_body_responses (request_headers r ∷ []) (build_chunked_body_responses body true)
    ∙ unfold sent_body in joined-build_chunked_body_responses body true

pub set_header_body :
    ⦃S : StringSet⦄ {V : Type 0} (m : Message V) (k v : Bytes)
    → ((set_header m k v).body ≡ m.body) × ((set_header m k v).body_mutated ≡ m.body_mutated)
unfolding set_header
set_header_body m k v = ground arith

module _ ⦃S : StringSet⦄ ⦃N : Float64⦄ {W : Type 0} where
  -- The answer `rs` to the body `bytes`, with the context `ctx` afterwards.
  pub record Answers (s : Server W) (bytes : Bytes) (ctx : RequestContext W)
      (rs : List ProcessingResponse) : Type 0 where
    pub length_header :
        Map.get bytes_dec content_length_header ctx.request.headers
        ≡ some (itoa (length (sent_body rs)))
    pub faithful :
        ((ctx.request.body_mutated ≡ false) × (sent_body rs ≡ bytes))
        ⊎ ((ctx.request.body_mutated ≡ true) × (s.marshal ctx.request.body ≡ inl (sent_body rs)))

  abbrev AnswersIfOk :
      Server W → Bytes → RequestContext W → Result (List ProcessingResponse) → Type 0
  AnswersIfOk s bytes ctx (ok rs) = Answers s bytes ctx rs
  AnswersIfOk s bytes ctx (err e) = Unit
  AnswersIfOk s bytes ctx panic = Unit

  finish_request-Answers :
      (s : Server W) (ctx : RequestContext W) (bytes sent : Bytes) (w : W)
      → ((ctx.request.body_mutated ≡ false) × (sent ≡ bytes))
        ⊎ ((ctx.request.body_mutated ≡ true) × (s.marshal ctx.request.body ≡ inl sent))
      → let (ctx', w', r) = finish_request s ctx sent w in AnswersIfOk s bytes ctx' r
  unfolding finish_request
  finish_request-Answers s ctx bytes sent w h =
      let m = set_header ctx.request content_length_header (itoa (length sent)) in
      let same =
        sent_body-streamed
          (some (record {
            clear_route_cache = true;
            header_mutation = some (header_mutation m);
            body_mutation = none;
          }))
          sent in
      let kept = set_header_body ctx.request content_length_header (itoa (length sent)) in
      record {
        length_header =
            rw same (set_header-get ctx.request content_length_header (itoa (length sent)));
        faithful = elim h [
          | inl (flag, e) ↦ inl (kept.1 ∙ flag, same ∙ e)
          | inr (flag, e) ↦ inr (kept.1 ∙ flag, ap s.marshal kept.0 ∙ e ∙ ap inl (sym same))
        ];
      }

  run_profile-Answers :
      (s : Server W) (ctx : RequestContext W) (bytes : Bytes) (w : W)
      → let (ctx', w', r) = run_profile s ctx bytes w in AnswersIfOk s bytes ctx' r
  unfolding run_profile
  run_profile-Answers s ctx bytes w =
      let (request, w', r) = run_request_plugins ctx.profile.request_plugins ctx.request w in
      let ctx' = record ctx { request = request } in
      elim (Result-cases r) [
        | inl (_, e) ↦ elim (Bool-cases request.body_mutated) [
          | inr flag ↦
              rw (e, flag, run_profile)
                (finish_request-Answers s ctx' bytes bytes w' (inl (flag, refl)))
          | inl flag ↦ elim (Sum-cases (s.marshal request.body)) [
            | inl (sent, q) ↦
                rw (e, flag, q, run_profile)
                  (finish_request-Answers s ctx' bytes sent w' (inr (flag, q)))
            | inr (text, q) ↦ rw (e, flag, q, run_profile) tt
          ]
        ]
        | inr (inl (x, e)) ↦ rw (e, run_profile) tt
        | inr (inr e) ↦ rw (e, run_profile) tt
      ]

  handle_request_body-AnswersIfOk :
      (s : Server W) (ctx : RequestContext W) (bytes : Bytes) (w : W)
      → let (ctx', w', r) = handle_request_body s ctx bytes w in AnswersIfOk s bytes ctx' r
  unfolding handle_request_body
  handle_request_body-AnswersIfOk s ctx bytes w =
      let (body, failure) = s.unmarshal bytes ctx.request.body in
      let parsed = record ctx.request { body = body } in
      elim (Option-cases failure) [
        | inr (text, f) ↦ rw (f, handle_request_body) tt
        | inl f ↦
            let (request, w₁, r) = run_request_plugins s.pre_processors parsed w in
            let ctx₁ = record ctx { request = request } in
            elim (Result-cases r) [
              | inr (inl (x, e)) ↦ rw (f, e, handle_request_body) tt
              | inr (inr e) ↦ rw (f, e, handle_request_body) tt
              | inl (_, e) ↦
                  let (picked, w₂) = pick_profile s request w₁ in
                  elim (Result-cases picked) [
                    | inr (inl (x, q)) ↦ rw (f, e, q, handle_request_body) tt
                    | inr (inr q) ↦ rw (f, e, q, handle_request_body) tt
                    | inl (p, q) ↦ elim (Option-cases p) [
                      | inl n ↦ rw (f, e, q, n, handle_request_body) tt
                      | inr (profile, n) ↦
                          rw (f, e, q, n, handle_request_body)
                            (run_profile-Answers s (record ctx₁ { profile = profile }) bytes w₂)
                    ]
                  ]
            ]
      ]

  -- Whatever the plugins do: if the handler of the request body answers, then the `Content-Length`
  -- among the request's headers is the decimal length of the body bytes that the answer sends on,
  -- and those bytes are the bytes received, if no plugin has flagged the body, and otherwise the
  -- encoding of the body as the plugins left it.
  pub handle_request_body-Answers :
      (s : Server W) (ctx ctx' : RequestContext W) (bytes : Bytes) (w w' : W)
      (rs : List ProcessingResponse)
      → handle_request_body s ctx bytes w ≡ (ctx', w', ok rs)
      → Answers s bytes ctx' rs
  handle_request_body-Answers s ctx ctx' bytes w w' rs e =
      subst (λ t. AnswersIfOk s bytes t.0 t.2) e (handle_request_body-AnswersIfOk s ctx bytes w)
