-- ===== src/Handlers/Process/Laws/Buffered.antt =====
-- pkg/handlers/server.go: how `Process` takes the response body messages of a stream that buffers.
use llm_d_inference_payload.Prelude.{
  Bytes, StringSet, Float64, ℕ, true, false, List, [], ◌∷◌, ◌++◌, Option, ◌≡◌, refl, sym, ap, ◌∙◌,
  append-nil, append_assoc, arith,
}
use llm_d_inference_payload.Envoy.{ProcessingRequest, HttpBody, ProcessingResponse}
use llm_d_inference_payload.Errors.{GoError, Result, ok}
use llm_d_inference_payload.Handlers.{Server}
use llm_d_inference_payload.Handlers.Response.{handle_response_body}
use llm_d_inference_payload.Handlers.Process.{
  Stream, Input, request, complete_response, on_buffered_body, on_response_body, process,
}
use llm_d_inference_payload.Handlers.Process.Laws.{
  joined_bodies, response_inputs, Open, whole, run_on, response_silent, run_on-response, after,
  after-inputs,
}

module _ ⦃S : StringSet⦄ ⦃N : Float64⦄ {W : Type 0} (status_code : GoError → ℕ)
    (send : ProcessingResponse → W → Option Bytes × W) (s : Server W) where
  response_duplicates :
      (st : Stream W) (ds : List HttpBody) (inputs : List Input) (w : W)
      → st.response_body_complete ≡ true
      → process status_code send s st (response_inputs ds ++ inputs) w
        ≡ process status_code send s st inputs w
  response_duplicates st [] inputs w h = refl
  response_duplicates st (d ∷ ds) inputs w h =
      response_silent status_code send s st st d (response_inputs ds ++ inputs) w
        (unfold on_response_body in rw h)
      ∙ response_duplicates st ds inputs w h

  buffered :
      (st : Stream W) (b : HttpBody) (w : W)
      → st.response_body_complete ≡ false
      → st.ctx.profile.needs_response_buffering ≡ true
      → on_response_body s st b w ≡ on_buffered_body s st b w
  unfolding on_response_body
  buffered st b w h n = simp (h, n)

  response_open :
      (st : Stream W) (b : HttpBody) (w : W)
      → st.response_body_complete ≡ false
      → st.ctx.profile.needs_response_buffering ≡ true
      → b.end_of_stream ≡ false
      → on_response_body s st b w
        ≡ (record st { response_body = st.response_body ++ b.body }, w, ok [])
  unfolding on_buffered_body
  response_open st b w h n e = buffered st b w h n ∙ simp e

  response_chunks :
      (st : Stream W) (cs : List HttpBody) (inputs : List Input) (w : W)
      → st.response_body_complete ≡ false
      → st.ctx.profile.needs_response_buffering ≡ true
      → Open cs
      → process status_code send s st (response_inputs cs ++ inputs) w
        ≡ process status_code send s
            (record st { response_body = st.response_body ++ joined_bodies cs })
            inputs
            w
  response_chunks st [] inputs w h n o =
      ap (λ x. run_on status_code send s (record st { response_body = x }) inputs w)
        (sym (append-nil st.response_body))
  response_chunks st (c ∷ cs) inputs w h n o =
      let st' = record st { response_body = st.response_body ++ c.body } in
      response_silent status_code send s st st' c (response_inputs cs ++ inputs) w
        (response_open st c w h n o.0)
      ∙ response_chunks st' cs inputs w h n o.1
      ∙ ap (λ x. run_on status_code send s (record st { response_body = x }) inputs w)
          (append_assoc st.response_body c.body (joined_bodies cs))

  response_last :
      (st : Stream W) (cs : List HttpBody) (b : HttpBody) (w : W)
      → b.end_of_stream ≡ true
      → on_buffered_body s (record st { response_body = st.response_body ++ joined_bodies cs }) b w
        ≡ on_buffered_body s st (whole (joined_bodies cs ++ b.body)) w
  unfolding on_buffered_body
  response_last st cs b w e = simp (e, append_assoc)

  complete_response_flag :
      (st : Stream W) (w : W) (r : Result (List ProcessingResponse)) (rs : List ProcessingResponse)
      → (complete_response s st w r).2 ≡ ok rs
      → (complete_response s st w r).0.response_body_complete ≡ true
  unfolding complete_response
  complete_response_flag st w r rs e = ground arith

  response_complete :
      (st : Stream W) (body : Bytes) (w : W) (rs : List ProcessingResponse)
      → (on_buffered_body s st (whole body) w).2 ≡ ok rs
      → (on_buffered_body s st (whole body) w).0.response_body_complete ≡ true
  unfolding on_buffered_body
  response_complete st body w rs e =
      let body' = st.response_body ++ body in
      let (ctx, w', r) = handle_response_body s st.ctx body' w in
      complete_response_flag (record st { ctx = ctx; response_body = body' }) w' r rs e

  -- In a stream that buffers the response, whose body has not ended, however Envoy splits that body
  -- into messages, the last one ending it, and whatever body messages it delivers again after the
  -- end, the stream answers, changes the state (the one response event included) and goes on
  -- exactly as if the body had come in one message.
  pub process_response_body_split :
      (st : Stream W) (cs : List HttpBody) (b : HttpBody) (ds : List HttpBody) (rest : List Input)
      (w : W)
      → st.response_body_complete ≡ false
      → st.ctx.profile.needs_response_buffering ≡ true
      → Open cs
      → b.end_of_stream ≡ true
      → process status_code send s st
          (response_inputs cs
            ++ (request (ProcessingRequest.response_body b) ∷ (response_inputs ds ++ rest)))
          w
        ≡ process status_code send s st
            (request (ProcessingRequest.response_body (whole (joined_bodies cs ++ b.body))) ∷ rest)
            w
  process_response_body_split st cs b ds rest w h n o e =
      let st' = record st { response_body = st.response_body ++ joined_bodies cs } in
      let body = joined_bodies cs ++ b.body in
      let t = on_buffered_body s st (whole body) w in
      response_chunks st cs _ w h n o
      ∙ run_on-response status_code send s st' b (response_inputs ds ++ rest) w
      ∙ ap (after status_code send s (response_inputs ds ++ rest))
          (buffered st' b w h n ∙ response_last st cs b w e)
      ∙ after-inputs status_code send s t (response_inputs ds ++ rest) rest
          (λ rs q w'. response_duplicates t.0 ds rest w' (response_complete st body w rs q))
      ∙ ap (after status_code send s rest) (sym (buffered st (whole body) w h n))
      ∙ sym (run_on-response status_code send s st (whole body) rest w)
