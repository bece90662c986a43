-- ===== src/Handlers/Process.antt =====
-- pkg/handlers/server.go, `Process`: the loop over the messages of one stream. What `Recv` and the
-- context give, round by round, is a list of inputs; `send` is `srv.Send`, with the text of its
-- error, `unmarshal` and the other parameters are the server's, and `status_code` is grpc's.
pub mod Laws
pub mod Failures
use llm_d_inference_payload.Prelude.{
  Bytes, bytes_dec, codes, StringSet, Float64, ℕ, Bool, true, false, List, [], ◌∷◌, ◌++◌, Option,
  none, some, is_empty, if◌then◌else◌, ◌&&◌, not,
}
use llm_d_inference_payload.Envoy.{ProcessingRequest, HttpBody, ProcessingResponse}
use llm_d_inference_payload.Errors.{GoError, Result, ok, err, panic, grpc}
use llm_d_inference_payload.Errors.Status.{build_err_response}
use llm_d_inference_payload.Framework.{Profile}
use llm_d_inference_payload.Handlers.{
  Server, RequestContext, new_request_context, response_event, Body,
}
use llm_d_inference_payload.Handlers.Request.{
  handle_request_headers, handle_request_body, handle_request_trailers,
}
use llm_d_inference_payload.Handlers.Response.{
  handle_response_headers, handle_response_body, handle_response_chunk, handle_response_trailers,
  with_body,
}
use llm_d_inference_payload.Handlers.Sse.{parse_sse_response_body}

-- The variables of `Process`.
pub record Stream ⦃S : StringSet⦄ ⦃N : Float64⦄ (W : Type 0) : Type 0 where
  pub ctx : RequestContext W
  pub request_body : Bytes
  pub response_body : Bytes
  pub request_body_complete : Bool
  pub response_body_complete : Bool

-- One round's `ctx.Done` and `Recv`.
pub data Input : Type 0 where
  -- the context is done, with its error
  done : GoError → Input
  -- `io.EOF`, or a cancelled receive
  eof : Input
  recv_error : Bytes → Input
  request : ProcessingRequest → Input

-- How `Process` ends; `waiting` is the end of the inputs.
pub data End : Type 0 where
  waiting : End
  returned_nil : End
  returned : GoError → End
  panicked : End

-- gRPC's `codes.Unknown`
abbrev pub unknown_status : ℕ
unknown_status = 2

module _ ⦃S : StringSet⦄ ⦃N : Float64⦄ {W : Type 0} where
  unfoldable pub new_stream : Stream W
  unfolding new_request_context
  new_stream = record {
    ctx = new_request_context;
    request_body = [];
    response_body = [];
    request_body_complete = false;
    response_body_complete = false;
  }

  unfoldable pub on_request_body :
      Server W → Stream W → HttpBody → W → Stream W × W × Result (List ProcessingResponse)
  on_request_body s st v w =
      if st.request_body_complete
      then (st, w, ok [])
      else (let body = st.request_body ++ v.body in
          let (ctx, w', r) = handle_request_body s st.ctx body w in
          if v.end_of_stream
          then (record st { ctx = ctx; request_body = body; request_body_complete = true }, w', r)
          else (record st { request_body = body }, w, ok []))

  -- the body that the event carries, parsed if no plugin has done it
  unfoldable pub parse_for_event : Server W → RequestContext W → Bytes → RequestContext W
  parse_for_event s ctx bytes =
      let empty = elim ctx.response.body as (λ _. Bool) [ none ↦ true | some m ↦ is_empty m ] in
      let (body, failure) = s.unmarshal bytes ctx.response.body in
      if empty && not (is_empty bytes)
      then (elim failure [
        | none ↦ with_body ctx body
        | some _ ↦ elim (parse_sse_response_body s.unmarshal bytes) [
          | none ↦ with_body ctx body
          | some sse_body ↦ with_body ctx (some sse_body)
        ]
      ])
      else ctx

  -- the block on the end of the response; it runs also if the handler failed
  unfoldable pub complete_response :
      Server W
      → Stream W
      → W
      → Result (List ProcessingResponse)
      → Stream W × W × Result (List ProcessingResponse)
  complete_response s st w r =
      let ctx = parse_for_event s st.ctx st.response_body in
      elim r [
        | panic ↦ (st, w, panic)
        | ok rs ↦ (
          record st { ctx = ctx; response_body_complete = true },
          s.notify (response_event ctx.request ctx.response) w,
          ok rs,
        )
        | err e ↦ (
          record st { ctx = ctx; response_body_complete = true },
          s.notify (response_event ctx.request ctx.response) w,
          err e,
        )
      ]

  -- a message of a response that is buffered: it is handled when it is whole
  unfoldable pub on_buffered_body :
      Server W → Stream W → HttpBody → W → Stream W × W × Result (List ProcessingResponse)
  on_buffered_body s st v w =
      let body = st.response_body ++ v.body in
      let (ctx, w', r) = handle_response_body s st.ctx body w in
      if v.end_of_stream
      then complete_response s (record st { ctx = ctx; response_body = body }) w' r
      else (record st { response_body = body }, w, ok [])

  -- a message of a response that is streamed: it is handled at once
  unfoldable pub on_streamed_body :
      Server W → Stream W → HttpBody → W → Stream W × W × Result (List ProcessingResponse)
  on_streamed_body s st v w =
      let body = st.response_body ++ v.body in
      let (ctx, w', r) = handle_response_chunk st.ctx v.body v.end_of_stream w in
      let st' = record st { ctx = ctx; response_body = body } in
      if v.end_of_stream then complete_response s st' w' r else (st', w', r)

  unfoldable pub on_response_body :
      Server W → Stream W → HttpBody → W → Stream W × W × Result (List ProcessingResponse)
  on_response_body s st v w =
      if st.response_body_complete
      then (st, w, ok [])
      else if st.ctx.profile.needs_response_buffering
      then on_buffered_body s st v w
      else on_streamed_body s st v w

  -- the `switch` on the message
  unfoldable pub dispatch :
      Server W → Stream W → ProcessingRequest → W → Stream W × W × Result (List ProcessingResponse)
  dispatch s st (ProcessingRequest.request_headers h) w =
      let (ctx, w', rs) = handle_request_headers s st.ctx h w in
      (record st { ctx = ctx }, w', ok rs)
  dispatch s st (ProcessingRequest.request_body b) w = on_request_body s st b w
  dispatch s st ProcessingRequest.request_trailers w = (st, w, handle_request_trailers)
  dispatch s st (ProcessingRequest.response_headers h) w =
      let (ctx, w', r) = handle_response_headers s st.ctx h w in (record st { ctx = ctx }, w', r)
  dispatch s st (ProcessingRequest.response_body b) w = on_response_body s st b w
  dispatch s st ProcessingRequest.response_trailers w = (st, w, handle_response_trailers)
  -- not reached: `process` returns before
  dispatch s st ProcessingRequest.unknown w =
      (st, w, err (grpc unknown_status (codes "unknown request type")))

  module _ (status_code : GoError → ℕ) (send : ProcessingResponse → W → Option Bytes × W) where
    abbrev send_failed : Bytes → GoError
    send_failed text = grpc unknown_status (codes "failed to send response back to Envoy: " ++ text)

    -- the loop over the responses: those sent, the state, and whether a send failed
    unfoldable pub send_all :
        List ProcessingResponse → W → List ProcessingResponse × W × Option GoError
    send_all [] w = ([], w, none)
    send_all (r ∷ rs) w =
        let (failure, w') = send r w in
        let (sent, w'', e) = send_all rs w' in
        elim failure [ some text ↦ ([], w', some (send_failed text)) | none ↦ (r ∷ sent, w'', e) ]

    -- the answer to an error, and the end of the stream
    unfoldable pub answer_error : GoError → W → List ProcessingResponse × W × End
    answer_error e w = elim (build_err_response status_code e) [
      | err e' ↦ ([], w, returned e')
      | panic ↦ ([], w, panicked)
      | ok r ↦
          let (failure, w') = send r w in
          elim failure [
            | some text ↦ ([], w', returned (send_failed text))
            | none ↦ (r ∷ [], w', returned_nil)
          ]
    ]

    -- What was sent, in order, the state, and how the loop ended.
    unfoldable pub process :
        Server W → Stream W → List Input → W → List ProcessingResponse × W × End
    process s st [] w = ([], w, waiting)
    process s st (done e ∷ inputs) w = ([], w, returned e)
    process s st (eof ∷ inputs) w = ([], w, returned_nil)
    process s st (recv_error text ∷ inputs) w =
        ([], w, returned (grpc unknown_status (codes "cannot receive stream request: " ++ text)))
    process s st (request ProcessingRequest.unknown ∷ inputs) w =
        ([], w, returned (grpc unknown_status (codes "unknown request type")))
    process s st (request q ∷ inputs) w =
        let (st', w₁, r) = dispatch s st q w in
        elim r [
          | panic ↦ ([], w₁, panicked)
          | err e ↦ answer_error e w₁
          | ok rs ↦
              let (sent, w₂, failure) = send_all rs w₁ in
              elim failure [
                | some e ↦ (sent, w₂, returned e)
                | none ↦ let (later, w₃, end) = process s st' inputs w₂ in (sent ++ later, w₃, end)
              ]
        ]
