-- ===== src/Handlers.antt =====
-- pkg/handlers: the state of the external processing server and of one stream. JSON encoding and
-- the tracing propagator are parameters: `unmarshal` is `json.Unmarshal` into a map that is there
-- or nil, with the text of its error; `marshal` is `json.Marshal`, which gives the bytes or the
-- text of an error; `trace_headers` are the headers that the propagator injects, none if the span
-- is not recording. Spans, metrics, logs and timestamps are not modelled.
pub mod Request
pub mod Response
pub mod Sse
pub mod Process
use llm_d_inference_payload.Prelude.{
  Bytes, StringSet, Float64, Bool, true, false, List, [], ◌∷◌, Option, none, some, ◌⊎◌, inl, inr,
  codes,
}
use llm_d_inference_payload.Prelude.Map.{Map}
use llm_d_inference_payload.Message.{new_inference_message, new_inference_response}
use llm_d_inference_payload.Json.{Value}
use llm_d_inference_payload.Framework.{
  InferenceRequest, InferenceResponse, Profile, ProfilePicker, RequestProcessor, ResponseProcessor,
  new_profile,
}

abbrev pub content_length_header : Bytes
content_length_header = codes "Content-Length"

module _ ⦃S : StringSet⦄ ⦃N : Float64⦄ where
  -- a decoded body: a map, or the nil map
  abbrev pub Body : Type 0
  Body = Option (Map Bytes (Value N.F))

  -- The events of the data layer, without their times.
  pub data Event : Type 0 where
    request_event : InferenceRequest → Event
    response_event : InferenceRequest → InferenceResponse → Event

pub record Server ⦃S : StringSet⦄ ⦃N : Float64⦄ (W : Type 0) : Type 0 where
  pub pre_processors : List (RequestProcessor W)
  -- `none` is a nil profile picker
  pub profile_picker : Option (ProfilePicker W)
  pub profiles : Map Bytes (Profile W)
  pub post_processors : List (ResponseProcessor W)
  pub response_headers_post_processors : List (ResponseProcessor W)
  pub notify : Event → W → W
  pub unmarshal : Bytes → Body → Body × Option Bytes
  pub marshal : Body → Bytes ⊎ Bytes
  pub trace_headers : W → List (Bytes × Bytes)

-- `RequestContext`; its cycle state is part of `W`.
pub record RequestContext ⦃S : StringSet⦄ ⦃N : Float64⦄ (W : Type 0) : Type 0 where
  pub response_headers_sent : Bool
  pub profile : Profile W
  pub request : InferenceRequest
  pub response : InferenceResponse

module _ ⦃S : StringSet⦄ ⦃N : Float64⦄ {W : Type 0} where
  -- the context that `Process` starts with
  unfoldable pub new_request_context : RequestContext W
  unfolding new_inference_message new_inference_response
  new_request_context = record {
    response_headers_sent = false;
    profile = new_profile;
    request = new_inference_message;
    response = new_inference_response;
  }
