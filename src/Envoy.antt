-- ===== src/Envoy.antt =====
-- The protobuf messages of Envoy's external processing protocol, as far as the source sets and
-- reads them; the field names are those of go-control-plane. A message pointer that may be nil is
-- an `Option`, and a `oneof` is a data type.
pub mod Headers
pub mod Chunking
use llm_d_inference_payload.Prelude.{Bytes, Bool, List, Option, ℕ}

-- `HeaderValue`
pub record HeaderValue : Type 0 where
  pub key : Bytes
  pub value : Bytes
  pub raw_value : Bytes

-- `HeaderValueOption.AppendAction`; the source sets this one only
pub data AppendAction : Type 0 where
  overwrite_if_exists_or_add : AppendAction

pub record HeaderValueOption : Type 0 where
  pub header : HeaderValue
  pub append_action : AppendAction

-- `HttpHeaders`: its header map, nil or not, and the flag
pub record HttpHeaders : Type 0 where
  pub headers : Option (List HeaderValue)
  pub end_of_stream : Bool

-- `HttpBody`
pub record HttpBody : Type 0 where
  pub body : Bytes
  pub end_of_stream : Bool

pub record HeaderMutation : Type 0 where
  pub set_headers : List HeaderValueOption
  pub remove_headers : List Bytes

-- `BodyMutation_StreamedResponse`
pub record StreamedBodyResponse : Type 0 where
  pub body : Bytes
  pub end_of_stream : Bool

pub record CommonResponse : Type 0 where
  pub clear_route_cache : Bool
  pub header_mutation : Option HeaderMutation
  pub body_mutation : Option StreamedBodyResponse

-- `ProcessingResponse`: its `oneof`; a `HeadersResponse` may come without a `CommonResponse`.
pub data ProcessingResponse : Type 0 where
  request_headers : Option CommonResponse → ProcessingResponse
  request_body : CommonResponse → ProcessingResponse
  request_trailers : ProcessingResponse
  response_headers : Option CommonResponse → ProcessingResponse
  response_body : CommonResponse → ProcessingResponse
  response_trailers : ProcessingResponse
  -- the HTTP status code and the body
  immediate_response : ℕ → Bytes → ProcessingResponse

-- `ProcessingRequest`: its `oneof`; `unknown` is a request that is none of those named.
pub data ProcessingRequest : Type 0 where
  request_headers : Option HttpHeaders → ProcessingRequest
  request_body : HttpBody → ProcessingRequest
  request_trailers : ProcessingRequest
  response_headers : Option HttpHeaders → ProcessingRequest
  response_body : HttpBody → ProcessingRequest
  response_trailers : ProcessingRequest
  unknown : ProcessingRequest
