-- ===== src/Handlers/Response/Laws.antt =====
-- pkg/handlers/response.go, `HandleResponseChunk`: the responses to the chunks of a stream.
use llm_d_inference_payload.Prelude.{
  Bytes, StringSet, Float64, Bool, true, false, List, [], ◌∷◌, ◌++◌, none, some, map, is_empty,
  if◌then◌else◌, ◌≡◌, refl, ap, sym, subst, ◌∙◌, arith, Bool-cases, inl, inr,
}
use mathlib.Core.List.{map-append}
use llm_d_inference_payload.Envoy.{ProcessingResponse, response_headers, response_body}
use llm_d_inference_payload.Envoy.Chunking.{streamed}
use llm_d_inference_payload.Errors.{Result, ok, err, panic}
use llm_d_inference_payload.Errors.Cases.{Result-cases}
use llm_d_inference_payload.Message.{reset_chunk_state}
use llm_d_inference_payload.Handlers.{RequestContext}
use llm_d_inference_payload.Handlers.Response.{
  build_headers_response, build_streamed_chunk_response, answer_chunk,
  run_response_chunk_processors, handle_response_chunk,
}

pub data Shape : Type 0 where
  headers : Shape
  body : Bool → Shape
  unexpected : Shape

-- a response to the headers, a body with its end-of-stream flag, or anything else
abbrev pub shape : ProcessingResponse → Shape
shape (ProcessingResponse.response_headers h) = headers
shape (ProcessingResponse.response_body b) = elim b.body_mutation [
  | none ↦ unexpected
  | some x ↦ body x.end_of_stream
]
shape ProcessingResponse.response_trailers = unexpected
shape (ProcessingResponse.request_headers h) = unexpected
shape (ProcessingResponse.request_body b) = unexpected
shape ProcessingResponse.request_trailers = unexpected
shape (ProcessingResponse.immediate_response n b) = unexpected

abbrev pub header_shape : Bool → List Shape
header_shape true = []
header_shape false = headers ∷ []

-- the shapes of the responses to chunks whose flags are given
abbrev pub shapes : Bool → List (Bytes × Bool) → List Shape
shapes sent [] = []
shapes sent ((chunk, eos) ∷ chunks) = (header_shape sent ++ (body eos ∷ [])) ++ shapes true chunks

module _ ⦃S : StringSet⦄ ⦃N : Float64⦄ {W : Type 0} where
  -- the handler on one chunk after another, each with its end-of-stream flag
  unfoldable pub handle_chunks :
      RequestContext W
      → List (Bytes × Bool)
      → W
      → RequestContext W × W × Result (List ProcessingResponse)
  handle_chunks ctx [] w = (ctx, w, ok [])
  handle_chunks ctx ((chunk, eos) ∷ chunks) w =
      let (ctx', w', r) = handle_response_chunk ctx chunk eos w in
      let (ctx'', w'', r') = handle_chunks ctx' chunks w' in
      elim r [
        | err e ↦ (ctx', w', err e)
        | panic ↦ (ctx', w', panic)
        | ok rs ↦ elim r' [
          | err e ↦ (ctx'', w'', err e)
          | panic ↦ (ctx'', w'', panic)
          | ok rs' ↦ (ctx'', w'', ok (rs ++ rs'))
        ]
      ]

  -- the responses to one chunk, once the handler returns them
  abbrev Shaped : Bool → Bool → RequestContext W × W × Result (List ProcessingResponse) → Type 0
  Shaped sent eos (ctx, w, r) =
      (rs : List ProcessingResponse)
      → r ≡ ok rs
      → (ctx.response_headers_sent ≡ true) × (map shape rs ≡ header_shape sent ++ (body eos ∷ []))

  ok-Shaped :
      (ctx : RequestContext W) (w : W) (sent eos : Bool) (rs : List ProcessingResponse)
      → ctx.response_headers_sent ≡ true
      → map shape rs ≡ header_shape sent ++ (body eos ∷ [])
      → Shaped sent eos (ctx, w, ok rs)
  ok-Shaped ctx w sent eos rs h m rs' e = let q : rs ≡ rs' = cc in (h, ap (map shape) (sym q) ∙ m)

  answer_sent :
      (ctx : RequestContext W) (w : W) (chunk : Bytes) (eos : Bool)
      → ctx.response_headers_sent ≡ true
      → answer_chunk ctx w chunk eos ≡ (ctx, w, ok (response_body (streamed chunk eos) ∷ []))
  unfolding answer_chunk build_streamed_chunk_response
  answer_sent ctx w chunk eos h = simp h

  answer_first :
      (ctx : RequestContext W) (w : W) (chunk : Bytes) (eos : Bool)
      → ctx.response_headers_sent ≡ false
      → answer_chunk ctx w chunk eos ≡ (
        record ctx { response_headers_sent = true },
        w,
        ok (
            response_headers (build_headers_response ctx.response.message)
            ∷ (response_body (streamed chunk eos) ∷ [])),
      )
  unfolding answer_chunk build_streamed_chunk_response
  answer_first ctx w chunk eos h = simp h

  answer_chunk-Shaped :
      (ctx : RequestContext W) (w : W) (chunk : Bytes) (eos : Bool)
      → Shaped ctx.response_headers_sent eos (answer_chunk ctx w chunk eos)
  answer_chunk-Shaped ctx w chunk eos = elim (Bool-cases ctx.response_headers_sent) [
    | inl h ↦
        subst (Shaped ctx.response_headers_sent eos) (sym (answer_sent ctx w chunk eos h))
          (ok-Shaped ctx w _ eos _ h (ap (λ x. header_shape x ++ (body eos ∷ [])) (sym h)))
    | inr h ↦ subst (Shaped ctx.response_headers_sent eos) (sym (answer_first ctx w chunk eos h)) (
        ok-Shaped (record ctx { response_headers_sent = true }) w _ eos _ refl
          (ap (λ x. header_shape x ++ (body eos ∷ [])) (sym h)))
  ]

  handle_response_chunk-Shaped :
      (ctx : RequestContext W) (chunk : Bytes) (eos : Bool) (w : W)
      → Shaped ctx.response_headers_sent eos (handle_response_chunk ctx chunk eos w)
  unfolding handle_response_chunk
  handle_response_chunk-Shaped ctx chunk eos w =
      elim (Bool-cases (is_empty ctx.profile.response_chunk_processors)) [
        | inl n ↦ rw (n, handle_response_chunk) (answer_chunk-Shaped ctx w chunk eos)
        | inr n ↦
            let (response, w', r) =
              run_response_chunk_processors eos ctx.profile.response_chunk_processors
                (reset_chunk_state ctx.response chunk) w in
            elim (Result-cases r) [
              | inl (u, q) ↦
                  rw (n, q, handle_response_chunk)
                    (answer_chunk-Shaped (record ctx { response = response }) w'
                      (if response.chunk_mutated then response.current_chunk else chunk) eos)
              | inr (inl (x, q)) ↦ rw (n, q, handle_response_chunk) (λ rs e. absurd (ground arith))
              | inr (inr q) ↦ rw (n, q, handle_response_chunk) (λ rs e. absurd (ground arith))
            ]
      ]

  -- However many chunks a streamed response comes in, and whatever the chunk processors do to them,
  -- as long as the handler returns responses they are, in order, one response body for each chunk
  -- with the chunk's end-of-stream flag, and before the first of them, unless the headers were
  -- answered before, exactly one response to the headers.
  pub handle_chunks-shapes :
      (ctx : RequestContext W) (chunks : List (Bytes × Bool)) (w : W) (rs : List ProcessingResponse)
      → (handle_chunks ctx chunks w).2 ≡ ok rs
      → map shape rs ≡ shapes ctx.response_headers_sent chunks
  unfolding handle_chunks
  handle_chunks-shapes ctx [] w rs e = let q : [] ≡ rs = cc in ap (map shape) (sym q)
  handle_chunks-shapes ctx ((chunk, eos) ∷ chunks) w rs e =
      let (ctx', w', r) = handle_response_chunk ctx chunk eos w in
      elim (Result-cases (handle_response_chunk ctx chunk eos w).2) [
        | inl (rs₁, q) ↦ elim (Result-cases (handle_chunks ctx' chunks w').2) [
          | inl (rs₂, q') ↦
              let (sent, here) = handle_response_chunk-Shaped ctx chunk eos w rs₁ q in
              let later = handle_chunks-shapes ctx' chunks w' rs₂ q' in
              let both : ok (rs₁ ++ rs₂) ≡ ok rs = sym (rw (q, q', handle_chunks) refl) ∙ e in
              let whole : rs₁ ++ rs₂ ≡ rs = cc in
              ap (map shape) (sym whole) ∙ map-append shape rs₁ rs₂ ∙ rw (here, later, sent) refl
          | inr (inl (x, q')) ↦
              let stop : err x ≡ ok rs = sym (rw (q, q', handle_chunks) refl) ∙ e in
              absurd (ground arith)
          | inr (inr q') ↦
              let stop : panic ≡ ok rs = sym (rw (q, q', handle_chunks) refl) ∙ e in
              absurd (ground arith)
        ]
        | inr (inl (x, q)) ↦
            let stop : err x ≡ ok rs = sym (rw (q, handle_chunks) refl) ∙ e in absurd (ground arith)
        | inr (inr q) ↦
            let stop : panic ≡ ok rs = sym (rw (q, handle_chunks) refl) ∙ e in absurd (ground arith)
      ]
