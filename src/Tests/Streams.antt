-- ===== src/Tests/Streams.antt =====
-- The handlers and the loop of `Process`.
use llm_d_inference_payload.Prelude.{
  Bytes, codes, itoa, ℕ, Bool, true, false, List, [], ◌∷◌, ◌++◌, Option, none, some, map, ◌≡◌, refl,
}
use llm_d_inference_payload.Prelude.Map
use llm_d_inference_payload.Message.{set_header, write_header}
use llm_d_inference_payload.Envoy.{
  HttpBody, ProcessingRequest, ProcessingResponse, request_headers, request_body, response_headers,
  response_body, immediate_response,
}
use llm_d_inference_payload.Envoy.Chunking.{streamed, build_chunked_body_responses}
use llm_d_inference_payload.Errors.{GoError, coded, bad_request, error_text, ok}
use llm_d_inference_payload.Handlers.{RequestContext}
use llm_d_inference_payload.Handlers.Request.{
  header_mutation, add_body_responses, add_streamed_body_response, run_request_plugins,
  pick_profile, finish_request, run_profile, handle_request_body,
}
use llm_d_inference_payload.Handlers.Request.Laws.{Answers, handle_request_body-Answers}
use llm_d_inference_payload.Handlers.Response.{
  build_headers_response, build_streamed_chunk_response, answer_chunk, handle_response_chunk,
}
use llm_d_inference_payload.Handlers.Response.Laws.{
  handle_chunks, shape, shapes, handle_chunks-shapes,
}
use llm_d_inference_payload.Handlers.Response.Bodies.{Forwards, handle_response_body-Forwards}
use llm_d_inference_payload.Handlers.Sse.{content_blocks}
use llm_d_inference_payload.Json.{Value, end, field}
use llm_d_inference_payload.Prelude.Map.{Map}
use llm_d_inference_payload.Handlers.{Server}
use llm_d_inference_payload.Handlers.Response.{
  handle_response_body, process_response_body, run_response_plugins, finish_response,
  body_responses, add_streamed_response_body, add_response_bodies,
}
use llm_d_inference_payload.Handlers.Process.{Stream, request, eof, returned_nil, process}
use llm_d_inference_payload.Handlers.Process.Laws.{
  joined_bodies, request_inputs, response_inputs, whole, process_request_body_split,
}
use llm_d_inference_payload.Handlers.Process.Laws.Buffered.{process_response_body_split}
use llm_d_inference_payload.Handlers.Process.Failures.{process-bad_request}
use llm_d_inference_payload.Tests.Fixtures.{sets, floats, profile, server, piece, last_piece}

abbrev context : RequestContext ℕ
context = record {
  response_headers_sent = false;
  profile = profile;
  request = record {
    headers = [];
    body = some [];
    mutated_headers = [];
    removed_headers = sets.new;
    body_mutated = false;
  };
  response = record {
    message = record {
      headers = [];
      body = some [];
      mutated_headers = [];
      removed_headers = sets.new;
      body_mutated = false;
    };
    current_chunk = [];
    chunk_mutated = false;
  };
}

abbrev stream : Stream ℕ
stream = record {
  ctx = context;
  request_body = [];
  response_body = [];
  request_body_complete = false;
  response_body_complete = false;
}

-- a stream that buffers the response
abbrev buffering : Stream ℕ
buffering = record stream {
  ctx = record context { profile = record profile { needs_response_buffering = true } };
}

abbrev send : ProcessingResponse → ℕ → Option Bytes × ℕ
send r w = (none, w)

abbrev status : GoError → ℕ
status e = 2

process_request_body_split_example :
    process status send server stream
      (request_inputs (piece ∷ [])
        ++ (request (ProcessingRequest.request_body last_piece)
            ∷ (request_inputs (last_piece ∷ []) ++ (eof ∷ []))))
      0
    ≡ process status send server stream
        (request
            (ProcessingRequest.request_body (whole (joined_bodies (piece ∷ []) ++ last_piece.body)))
          ∷ (eof ∷ []))
        0
process_request_body_split_example =
    process_request_body_split status send server stream (piece ∷ []) last_piece (last_piece ∷ [])
      (eof ∷ []) 0 refl (refl, tt) refl

process_response_body_split_example :
    process status send server buffering
      (response_inputs (piece ∷ [])
        ++ (request (ProcessingRequest.response_body last_piece)
            ∷ (response_inputs (last_piece ∷ []) ++ (eof ∷ []))))
      0
    ≡ process status send server buffering
        (request (
            ProcessingRequest.response_body (whole (joined_bodies (piece ∷ []) ++ last_piece.body)))
          ∷ (eof ∷ []))
        0
process_response_body_split_example =
    process_response_body_split status send server buffering (piece ∷ []) last_piece
      (last_piece ∷ []) (eof ∷ []) 0 refl refl (refl, tt) refl

-- an empty body, which does not parse
abbrev nothing : HttpBody
nothing = record { body = []; end_of_stream = true }

abbrev refusal : ProcessingResponse
refusal = immediate_response 400 (
    error_text (
      coded bad_request
        (codes "failed to parse request body: " ++ codes "unexpected end of JSON input")))

process-bad_request_example :
    process status send server stream
      (request (ProcessingRequest.request_body nothing) ∷ (eof ∷ []))
      0
    ≡ (refusal ∷ [], 0, returned_nil)
process-bad_request_example =
    process-bad_request status send server stream nothing (eof ∷ []) 0 0 refl refl refl refl

abbrev answered : RequestContext ℕ
answered = record context {
  request = record context.request {
    headers = (codes "Content-Length", codes "2") ∷ [];
    mutated_headers = (codes "Content-Length", codes "2") ∷ [];
    removed_headers = sets.delete (codes "Content-Length") sets.new;
  };
}

abbrev responses : List ProcessingResponse
responses =
    request_headers (
      some (record {
        clear_route_cache = true;
        header_mutation = some (header_mutation answered.request);
        body_mutation = none;
      }))
    ∷ request_body (streamed (codes "{}") true)
    ∷ []

handled : handle_request_body server context (codes "{}") 0 ≡ (answered, 1, ok responses)
unfolding handle_request_body run_request_plugins pick_profile run_profile finish_request set_header
    write_header itoa Map.get Map.put add_streamed_body_response add_body_responses
    build_chunked_body_responses
handled = refl

handle_request_body-Answers_example : Answers server (codes "{}") answered responses
handle_request_body-Answers_example =
    handle_request_body-Answers server context answered (codes "{}") 0 1 responses handled

abbrev chunks : List (Bytes × Bool)
chunks = (codes "data: 1", false) ∷ (codes "data: 2", true) ∷ []

abbrev streamed_responses : List ProcessingResponse
streamed_responses =
    response_headers (build_headers_response context.response.message)
    ∷ response_body (streamed (codes "data: 1") false)
    ∷ response_body (streamed (codes "data: 2") true)
    ∷ []

streamed_lem : (handle_chunks context chunks 0).2 ≡ ok streamed_responses
unfolding handle_chunks handle_response_chunk answer_chunk build_streamed_chunk_response
streamed_lem = refl

handle_chunks-shapes_example : map shape streamed_responses ≡ shapes false chunks
handle_chunks-shapes_example = handle_chunks-shapes context chunks 0 streamed_responses streamed_lem

-- a server with a plugin that flags the body of a response
abbrev flagging : Server ℕ
flagging = record server {
  post_processors =
      (λ r w. (record r { message = record r.message { body_mutated = true } }, w, ok tt)) ∷ [];
}

abbrev forwarded : RequestContext ℕ
forwarded = record context {
  response = record context.response {
    message = record context.response.message {
      headers = (codes "Content-Length", codes "2") ∷ [];
      mutated_headers = (codes "Content-Length", codes "2") ∷ [];
      removed_headers = sets.delete (codes "Content-Length") sets.new;
      body_mutated = true;
    };
  };
}

abbrev forwarded_responses : List ProcessingResponse
forwarded_responses =
    response_headers (
      some (record {
        clear_route_cache = true;
        header_mutation = some (header_mutation forwarded.response.message);
        body_mutation = none;
      }))
    ∷ response_body (streamed (codes "{}") true)
    ∷ []

forwarding :
    handle_response_body flagging context (codes "{ }") 0 ≡ (forwarded, 0, ok forwarded_responses)
unfolding handle_response_body process_response_body run_response_plugins finish_response set_header
    write_header itoa Map.get Map.put body_responses add_streamed_response_body add_response_bodies
    build_chunked_body_responses
forwarding = refl

handle_response_body-Forwards_example :
    Forwards flagging (codes "{ }") forwarded forwarded_responses
handle_response_body-Forwards_example =
    handle_response_body-Forwards flagging context forwarded (codes "{ }") 0 0 forwarded_responses
      refl forwarding

abbrev JsonMap : Type 0
JsonMap = Map Bytes (Value ℕ)

-- every text decodes to one event
abbrev decode_event : Bytes → Option JsonMap → Option JsonMap × Option Bytes
decode_event text body = (
  some (
      (codes "model", Value.str (codes "m"))
      ∷ (codes "delta", Value.obj (field (codes "text") (Value.str (codes "hi")) end))
      ∷ []),
  none,
)

abbrev event_body : JsonMap
event_body =
    (codes "model", Value.str (codes "m"))
    ∷ (codes "content", content_blocks (codes "hi"))
    ∷ (codes "type", Value.str (codes "message"))
    ∷ (codes "role", Value.str (codes "assistant"))
    ∷ []
