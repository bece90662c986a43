-- ===== src/Handlers/Process/Failures.antt =====
-- pkg/handlers/server.go, `Process`: how the stream ends when a handler fails.
use llm_d_inference_payload.Prelude.{
  Bytes, codes, StringSet, Float64, ℕ, true, false, List, [], ◌∷◌, ◌++◌, Option, none, some, ◌≡◌,
  refl, ap, ◌∙◌,
}
use llm_d_inference_payload.Envoy.{
  ProcessingRequest, HttpBody, ProcessingResponse, immediate_response,
}
use llm_d_inference_payload.Errors.{GoError, Result, err, coded, bad_request, error_text}
use llm_d_inference_payload.Errors.Status.{build_err_response-bad_request}
use llm_d_inference_payload.Handlers.{Server}
use llm_d_inference_payload.Handlers.Request.{handle_request_body}
use llm_d_inference_payload.Handlers.Process.{
  Stream, Input, request, returned_nil, answer_error, on_request_body, process,
}
use llm_d_inference_payload.Handlers.Process.Laws.{run_on-request, after}

module _ ⦃S : StringSet⦄ ⦃N : Float64⦄ {W : Type 0} (status_code : GoError → ℕ)
    (send : ProcessingResponse → W → Option Bytes × W) (s : Server W) where
  -- the error of a body that does not parse
  abbrev parse_error : Bytes → GoError
  parse_error text = coded bad_request (codes "failed to parse request body: " ++ text)

  unparsable :
      (st : Stream W) (b : HttpBody) (w : W) {text : Bytes}
      → st.request_body_complete ≡ false
      → b.end_of_stream ≡ true
      → (s.unmarshal (st.request_body ++ b.body) st.ctx.request.body).1 ≡ some text
      → ((on_request_body s st b w).2 ≡ err (parse_error text)) × ((on_request_body s st b w).1 ≡ w)
  unfolding on_request_body handle_request_body
  unparsable st b w h e f = (
    rw (h, e, f, on_request_body, handle_request_body) refl,
    rw (h, e, f, on_request_body, handle_request_body) refl,
  )

  after_err :
      (inputs : List Input) (t : Stream W × W × Result (List ProcessingResponse)) (w : W)
      (e : GoError)
      → t.2 ≡ err e
      → t.1 ≡ w
      → after status_code send s inputs t ≡ answer_error status_code send e w
  unfolding after
  after_err inputs (st, v, r) w e p q = rw (p, q, after) refl

  answer_bad_request :
      (msg : Bytes) (w w' : W)
      → send (immediate_response 400 (error_text (coded bad_request msg))) w ≡ (none, w')
      → answer_error status_code send (coded bad_request msg) w
        ≡ (immediate_response 400 (error_text (coded bad_request msg)) ∷ [], w', returned_nil)
  unfolding answer_error
  answer_bad_request msg w w' e =
      rw
        (
          build_err_response-bad_request status_code msg,
          ap (λ x. x.0) e,
          ap (λ x. x.1) e,
          answer_error,
        )
        refl

  -- If the message that ends the request body arrives, the whole body does not parse, and the
  -- answer can be sent, the stream sends one immediate response with the status 400 and the text of
  -- the error, runs no plugin, tells no listener, takes no further input, and ends without an
  -- error.
  pub process-bad_request :
      (st : Stream W) (b : HttpBody) (rest : List Input) (w w' : W) {text : Bytes}
      → st.request_body_complete ≡ false
      → b.end_of_stream ≡ true
      → (s.unmarshal (st.request_body ++ b.body) st.ctx.request.body).1 ≡ some text
      → let answer = immediate_response 400 (error_text (parse_error text)) in
        send answer w ≡ (none, w')
        → process status_code send s st (request (ProcessingRequest.request_body b) ∷ rest) w
          ≡ (answer ∷ [], w', returned_nil)
  process-bad_request st b rest w w' {text} h e f sent =
      let (p, q) = unparsable st b w h e f in
      run_on-request status_code send s st b rest w
      ∙ after_err rest (on_request_body s st b w) w (parse_error text) p q
      ∙ answer_bad_request (codes "failed to parse request body: " ++ text) w w' sent
