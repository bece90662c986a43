-- ===== src/Handlers/Request.antt =====
-- pkg/handlers/request.go. A handler returns the context, the state and its result.
pub mod Laws
use llm_d_inference_payload.Prelude.{
  Bytes, bytes_dec, to_lower, itoa, codes, StringSet, Float64, Bool, true, false, List, [], ◌∷◌,
  ◌++◌, Option, none, some, inl, inr, is_empty, if◌then◌else◌, length, map, ◌&&◌,
}
use llm_d_inference_payload.Prelude.Map
use llm_d_inference_payload.Prelude.Map.{Map}
use llm_d_inference_payload.Envoy.{
  HeaderValue, HttpHeaders, HeaderMutation, CommonResponse, ProcessingResponse, request_headers,
  request_body, request_trailers,
}
use llm_d_inference_payload.Envoy.Headers.{get_header_value, generate_headers_mutation}
use llm_d_inference_payload.Envoy.Chunking.{build_chunked_body_responses}
use llm_d_inference_payload.Errors.{
  GoError, Result, ok, err, panic, coded, plain, bad_request, internal, error_text,
}
use llm_d_inference_payload.Message.{Message, set_header}
use llm_d_inference_payload.Json.{Value}
use llm_d_inference_payload.Framework.{InferenceRequest, RequestProcessor, Profile}
use llm_d_inference_payload.Handlers.{Server, RequestContext, request_event, content_length_header}

module _ ⦃S : StringSet⦄ {V : Type 0} where
  -- the header mutation that both handlers send
  unfoldable pub header_mutation : Message V → HeaderMutation
  unfolding generate_headers_mutation
  header_mutation m = record {
    set_headers = generate_headers_mutation m.mutated_headers;
    remove_headers = S.unsorted_list m.removed_headers;
  }

  abbrev pub has_header_mutation : Message V → Bool
  has_header_mutation m =
      if is_empty m.mutated_headers
      then if is_empty (S.unsorted_list m.removed_headers) then false else true
      else true

unfoldable pub add_body_responses :
    List ProcessingResponse → List CommonResponse → List ProcessingResponse
add_body_responses responses [] = responses
add_body_responses responses (r ∷ rs) = add_body_responses (responses ++ request_body r ∷ []) rs

unfoldable pub add_streamed_body_response :
    List ProcessingResponse → Bytes → List ProcessingResponse
unfolding add_body_responses
add_streamed_body_response responses body =
    add_body_responses responses (build_chunked_body_responses body true)

module _ ⦃S : StringSet⦄ {V : Type 0} where
  -- the loop that copies the headers, with their names in lower case
  unfoldable pub capture_headers : Message V → List HeaderValue → Message V
  unfolding get_header_value
  capture_headers m [] = m
  capture_headers m (h ∷ hs) =
      capture_headers
        (record m { headers = Map.put bytes_dec (to_lower h.key) (get_header_value h) m.headers })
        hs

  unfoldable pub inject_trace_context_headers : Message V → List (Bytes × Bytes) → Message V
  unfolding set_header
  inject_trace_context_headers m [] = m
  inject_trace_context_headers m ((k, v) ∷ carrier) =
      inject_trace_context_headers (set_header m (to_lower k) v) carrier

abbrev pub header_list : Option HttpHeaders → List HeaderValue
header_list none = []
header_list (some h) = elim h.headers [ none ↦ [] | some hs ↦ hs ]

-- `GetEndOfStream`, which is false on nil
abbrev pub get_end_of_stream : Option HttpHeaders → Bool
get_end_of_stream none = false
get_end_of_stream (some h) = h.end_of_stream

module _ ⦃S : StringSet⦄ ⦃N : Float64⦄ {W : Type 0} where
  unfoldable pub run_request_plugins :
      List (RequestProcessor W) → InferenceRequest → W → InferenceRequest × W × Result (Unit {0})
  run_request_plugins [] request w = (request, w, ok tt)
  run_request_plugins (p ∷ ps) request w =
      let (request', w', r) = p request w in
      elim r [
        | ok _ ↦ run_request_plugins ps request' w'
        | err e ↦ (request', w', err e)
        | panic ↦ (request', w', panic)
      ]

  unfoldable pub handle_request_headers :
      Server W
      → RequestContext W
      → Option HttpHeaders
      → W
      → RequestContext W × W × List ProcessingResponse
  unfolding capture_headers inject_trace_context_headers header_mutation
  handle_request_headers s ctx headers w =
      let request =
        inject_trace_context_headers (capture_headers ctx.request (header_list headers))
          (s.trace_headers w) in
      (
        record ctx { request = request },
        w,
        if get_end_of_stream headers
            then request_headers (
                if has_header_mutation request
                then some (record {
                  clear_route_cache = false;
                  header_mutation = some (header_mutation request);
                  body_mutation = none;
                })
                else none)
              ∷ []
            else [],
      )

  -- What follows the plugins: the length header, the event, the responses.
  unfoldable pub finish_request :
      Server W
      → RequestContext W
      → Bytes
      → W
      → RequestContext W × W × Result (List ProcessingResponse)
  unfolding set_header header_mutation add_streamed_body_response
  finish_request s ctx body w =
      let request = set_header ctx.request content_length_header (itoa (length body)) in
      (
        record ctx { request = request },
        s.notify (request_event request) w,
        ok (
            add_streamed_body_response
              (request_headers (
                  some (record {
                    clear_route_cache = true;
                    header_mutation = some (header_mutation request);
                    body_mutation = none;
                  }))
                ∷ [])
              body),
      )

  -- What follows the choice of the profile.
  unfoldable pub run_profile :
      Server W
      → RequestContext W
      → Bytes
      → W
      → RequestContext W × W × Result (List ProcessingResponse)
  unfolding run_request_plugins finish_request
  run_profile s ctx bytes w =
      let (request, w', r) = run_request_plugins ctx.profile.request_plugins ctx.request w in
      let ctx' = record ctx { request = request } in
      elim r [
        | err e ↦ (ctx', w', err e)
        | panic ↦ (ctx', w', panic)
        | ok _ ↦ elim request.body_mutated [
          | false ↦ finish_request s ctx' bytes w'
          | true ↦ elim (s.marshal request.body) [
            | inl mutated ↦ finish_request s ctx' mutated w'
            | inr text ↦ (ctx', w', err (plain text))
          ]
        ]
      ]

  unfoldable pub pick_profile : Server W → InferenceRequest → W → Result (Option (Profile W)) × W
  pick_profile s request w = elim s.profile_picker [
    | none ↦ (panic, w)
    | some pick ↦ pick request s.profiles w
  ]

  unfoldable pub handle_request_body :
      Server W
      → RequestContext W
      → Bytes
      → W
      → RequestContext W × W × Result (List ProcessingResponse)
  unfolding run_request_plugins pick_profile run_profile
  handle_request_body s ctx bytes w =
      let (body, failure) = s.unmarshal bytes ctx.request.body in
      let parsed = record ctx.request { body = body } in
      elim failure [
        | some text ↦ (
          record ctx { request = parsed },
          w,
          err (coded bad_request (codes "failed to parse request body: " ++ text)),
        )
        | none ↦
            let (request, w₁, r) = run_request_plugins s.pre_processors parsed w in
            let ctx₁ = record ctx { request = request } in
            elim r [
              | err e ↦ (ctx₁, w₁, err e)
              | panic ↦ (ctx₁, w₁, panic)
              | ok _ ↦
                  let (picked, w₂) = pick_profile s request w₁ in
                  elim picked [
                    | err e ↦ (
                      ctx₁,
                      w₂,
                      err (coded internal (codes "failed to pick a profile: " ++ error_text e)),
                    )
                    | panic ↦ (ctx₁, w₂, panic)
                    -- a nil profile is dereferenced
                    | ok p ↦ elim p [
                      | none ↦ (ctx₁, w₂, panic)
                      | some profile ↦ run_profile s (record ctx₁ { profile = profile }) bytes w₂
                    ]
                  ]
            ]
      ]

unfoldable pub handle_request_trailers : Result (List ProcessingResponse)
handle_request_trailers = ok (request_trailers ∷ [])
