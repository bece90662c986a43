-- ===== src/Handlers/Response.antt =====
-- pkg/handlers/response.go. A handler returns the context, the state and its result.
pub mod Laws
pub mod Bodies
use llm_d_inference_payload.Prelude.{
  Bytes, bytes_dec, itoa, codes, StringSet, Float64, Bool, true, false, not, List, [], ◌∷◌, ◌++◌,
  Option, none, some, inl, inr, is_empty, if◌then◌else◌, length, ◌&&◌,
}
use llm_d_inference_payload.Prelude.Map
use llm_d_inference_payload.Prelude.Map.{Map}
use llm_d_inference_payload.Envoy.{
  HeaderValue, HttpHeaders, CommonResponse, ProcessingResponse, response_headers, response_body,
  response_trailers,
}
use llm_d_inference_payload.Envoy.Headers.{get_header_value}
use llm_d_inference_payload.Envoy.Chunking.{build_chunked_body_responses, streamed}
use llm_d_inference_payload.Errors.{GoError, Result, ok, err, panic, plain}
use llm_d_inference_payload.Message.{Message, Response, set_header, reset_chunk_state}
use llm_d_inference_payload.Json.{Value}
use llm_d_inference_payload.Framework.{
  InferenceResponse, ResponseProcessor, ResponseChunkProcessor, Profile,
}
use llm_d_inference_payload.Handlers.{Server, RequestContext, content_length_header, Body}
use llm_d_inference_payload.Handlers.Request.{
  header_mutation, has_header_mutation, header_list, get_end_of_stream,
}
use llm_d_inference_payload.Handlers.Sse.{parse_sse_response_body}

unfoldable pub add_response_bodies :
    List ProcessingResponse → List CommonResponse → List ProcessingResponse
add_response_bodies responses [] = responses
add_response_bodies responses (r ∷ rs) = add_response_bodies (responses ++ response_body r ∷ []) rs

-- pkg/common/envoy/response.go
unfoldable pub add_streamed_response_body :
    List ProcessingResponse → Bytes → List ProcessingResponse
unfolding add_response_bodies
add_streamed_response_body responses body =
    add_response_bodies responses (build_chunked_body_responses body true)

module _ ⦃S : StringSet⦄ {V : Type 0} where
  unfoldable pub capture_response_headers : Message V → List HeaderValue → Message V
  unfolding get_header_value
  capture_response_headers m [] = m
  capture_response_headers m (h ∷ hs) =
      capture_response_headers
        (record m { headers = Map.put bytes_dec h.key (get_header_value h) m.headers }) hs

  -- `none` is a `HeadersResponse` with nothing set.
  unfoldable pub build_headers_response : Message V → Option CommonResponse
  unfolding header_mutation
  build_headers_response m =
      if has_header_mutation m
      then some (record {
        clear_route_cache = false;
        header_mutation = some (header_mutation m);
        body_mutation = none;
      })
      else none

  -- the responses to a body that the plugins have processed
  unfoldable pub body_responses : Message V → Bytes → List ProcessingResponse
  unfolding header_mutation add_streamed_response_body
  body_responses m body =
      add_streamed_response_body
        (response_headers (
            some (record {
              clear_route_cache = true;
              header_mutation = some (header_mutation m);
              body_mutation = none;
            }))
          ∷ [])
        body

module _ ⦃S : StringSet⦄ ⦃N : Float64⦄ {W : Type 0} where
  -- `runResponseHeadersProcessors` and `runResponsePlugins`
  unfoldable pub run_response_plugins :
      List (ResponseProcessor W) → InferenceResponse → W → InferenceResponse × W × Result (Unit {0})
  run_response_plugins [] response w = (response, w, ok tt)
  run_response_plugins (p ∷ ps) response w =
      let (response', w', r) = p response w in
      elim r [
        | ok _ ↦ run_response_plugins ps response' w'
        | err e ↦ (response', w', err e)
        | panic ↦ (response', w', panic)
      ]

  unfoldable pub run_response_chunk_processors :
      Bool
      → List (ResponseChunkProcessor W)
      → InferenceResponse
      → W
      → InferenceResponse × W × Result (Unit {0})
  run_response_chunk_processors is_final [] response w = (response, w, ok tt)
  run_response_chunk_processors is_final (p ∷ ps) response w =
      let (response', w', r) = p is_final response w in
      elim r [
        | ok _ ↦ run_response_chunk_processors is_final ps response' w'
        | err e ↦ (response', w', err e)
        | panic ↦ (response', w', panic)
      ]

  unfoldable pub handle_response_headers :
      Server W
      → RequestContext W
      → Option HttpHeaders
      → W
      → RequestContext W × W × Result (List ProcessingResponse)
  unfolding capture_response_headers run_response_plugins build_headers_response
  handle_response_headers s ctx headers w =
      let captured = record ctx.response {
        message = capture_response_headers ctx.response.message (header_list headers);
      } in
      let (response, w', r) = run_response_plugins s.response_headers_post_processors captured w in
      (
        record ctx { response = response },
        w',
        elim r [
          | err e ↦ err e
          | panic ↦ panic
          | ok _ ↦ ok (
              if get_end_of_stream headers
              then response_headers (build_headers_response response.message) ∷ []
              else [])
        ],
      )

  unfoldable pub generate_passthrough_response_body_response :
      RequestContext W → Bytes → List ProcessingResponse
  unfolding build_headers_response add_streamed_response_body
  generate_passthrough_response_body_response ctx body =
      add_streamed_response_body
        (response_headers (build_headers_response ctx.response.message) ∷ []) body

  unfoldable pub finish_response :
      Server W
      → RequestContext W
      → Bytes
      → W
      → RequestContext W × W × Result (List ProcessingResponse)
  unfolding set_header body_responses
  finish_response s ctx bytes w = elim ctx.response.body_mutated [
    | false ↦ (ctx, w, ok (body_responses ctx.response.message bytes))
    | true ↦ elim (s.marshal ctx.response.body) [
      | inr text ↦
          (ctx, w, err (plain (codes "failed to marshal mutated response body - " ++ text)))
      | inl mutated ↦
          let m = set_header ctx.response.message content_length_header (itoa (length mutated)) in
          (
            record ctx { response = record ctx.response { message = m } },
            w,
            ok (body_responses m mutated),
          )
    ]
  ]

  -- Both runs of the plugins, the profile's first.
  unfoldable pub process_response_body :
      Server W
      → RequestContext W
      → Bytes
      → W
      → RequestContext W × W × Result (List ProcessingResponse)
  unfolding run_response_plugins finish_response
  process_response_body s ctx bytes w =
      let (response, w₁, r) = run_response_plugins ctx.profile.response_plugins ctx.response w in
      elim r [
        | err e ↦ (record ctx { response = response }, w₁, err e)
        | panic ↦ (record ctx { response = response }, w₁, panic)
        | ok _ ↦
            let (response', w₂, r') = run_response_plugins s.post_processors response w₁ in
            let ctx' = record ctx { response = response' } in
            elim r' [
              | err e ↦ (ctx', w₂, err e)
              | panic ↦ (ctx', w₂, panic)
              | ok _ ↦ finish_response s ctx' bytes w₂
            ]
      ]

  abbrev pub with_body : RequestContext W → Body → RequestContext W
  with_body ctx body = record ctx {
    response = record ctx.response { message = record ctx.response.message { body = body } };
  }

  unfoldable pub handle_response_body :
      Server W
      → RequestContext W
      → Bytes
      → W
      → RequestContext W × W × Result (List ProcessingResponse)
  unfolding generate_passthrough_response_body_response process_response_body
      parse_sse_response_body
  handle_response_body s ctx bytes w =
      if is_empty ctx.profile.response_plugins && is_empty s.post_processors
      then (ctx, w, ok (generate_passthrough_response_body_response ctx bytes))
      else (let (body, failure) = s.unmarshal bytes ctx.response.body in
          elim failure [
            | none ↦ process_response_body s (with_body ctx body) bytes w
            | some _ ↦ elim (parse_sse_response_body s.unmarshal bytes) [
              | some sse_body ↦ process_response_body s (with_body ctx (some sse_body)) bytes w
              | none ↦ (
                with_body ctx body,
                w,
                ok (generate_passthrough_response_body_response (with_body ctx body) bytes),
              )
            ]
          ])

  unfoldable pub build_streamed_chunk_response :
      RequestContext W → Bytes → Bool → RequestContext W × List ProcessingResponse
  unfolding build_headers_response
  build_streamed_chunk_response ctx chunk end_of_stream =
      let responses = response_body (streamed chunk end_of_stream) ∷ [] in
      if ctx.response_headers_sent then (ctx, responses) else (
        record ctx { response_headers_sent = true },
        response_headers (build_headers_response ctx.response.message) ∷ responses,
      )

  unfoldable pub answer_chunk :
      RequestContext W → W → Bytes → Bool → RequestContext W × W × Result (List ProcessingResponse)
  unfolding build_streamed_chunk_response
  answer_chunk ctx w chunk end_of_stream =
      let (ctx', responses) = build_streamed_chunk_response ctx chunk end_of_stream in
      (ctx', w, ok responses)

  unfoldable pub handle_response_chunk :
      RequestContext W → Bytes → Bool → W → RequestContext W × W × Result (List ProcessingResponse)
  unfolding answer_chunk run_response_chunk_processors reset_chunk_state
  handle_response_chunk ctx chunk end_of_stream w =
      if is_empty ctx.profile.response_chunk_processors
      then answer_chunk ctx w chunk end_of_stream
      else (let (response, w', r) =
            run_response_chunk_processors end_of_stream ctx.profile.response_chunk_processors
              (reset_chunk_state ctx.response chunk) w in
          let ctx' = record ctx { response = response } in
          elim r [
            | err e ↦ (ctx', w', err e)
            | panic ↦ (ctx', w', panic)
            | ok _ ↦
                answer_chunk ctx' w'
                  (if response.chunk_mutated then response.current_chunk else chunk) end_of_stream
          ])

unfoldable pub handle_response_trailers : Result (List ProcessingResponse)
handle_response_trailers = ok (response_trailers ∷ [])
