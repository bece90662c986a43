-- ===== src/RequestMetadata.antt =====
-- pkg/framework/plugins/datalayer/requestmetadata/plugin.go: the counts of the requests in flight
-- and of their tokens, per model. An event's payload is of its type's kind, as the server sends it.
-- `truncate` is the conversion `int64(f)`.
pub mod Flight
pub mod Published
use llm_d_inference_payload.Prelude.{
  text_or_empty, Bytes, bytes_dec, codes, StringSet, Float64, ℤ, pos, is_negative, ◌+64◌, ◌-64◌,
  Bool, List, [], ◌∷◌, Option, none, some, is_empty, if◌then◌else◌,
}
use llm_d_inference_payload.Prelude.Map
use llm_d_inference_payload.Prelude.Map.{Map}
use llm_d_inference_payload.Json.{as_string, as_float}
use llm_d_inference_payload.Message.{body_field}
use llm_d_inference_payload.DataLayer.{Attribute, request_count}
use llm_d_inference_payload.DataLayer.Attributes.{put_attribute}
use llm_d_inference_payload.DataLayer.Datastore.{Datastore, update_model}
use llm_d_inference_payload.Framework.{InferenceRequest}
use llm_d_inference_payload.Handlers.{Event, request_event, response_event}

abbrev pub request_metadata_attribute_key : Bytes
request_metadata_attribute_key = codes "request-metadata"

-- `RequestMetadataCount`
pub record RequestMetadataCount : Type 0 where
  pub requests : ℤ
  pub tokens : ℤ

abbrev pub Counts : Type 0
Counts = Map Bytes RequestMetadataCount

-- the zero value of a missing key
abbrev pub count_or_zero : Option RequestMetadataCount → RequestMetadataCount
count_or_zero none = record { requests = pos 0; tokens = pos 0 }
count_or_zero (some c) = c

unfoldable pub floor_decrement : ℤ → ℤ → ℤ
floor_decrement v delta = if is_negative (v -64 delta) then pos 0 else v -64 delta

unfoldable pub count_request : ℤ → RequestMetadataCount → RequestMetadataCount
count_request max_tokens c = record {
  requests = c.requests +64 pos 1;
  tokens = c.tokens +64 max_tokens;
}

unfoldable pub count_response : ℤ → RequestMetadataCount → RequestMetadataCount
unfolding floor_decrement
count_response max_tokens c = record {
  requests = floor_decrement c.requests (pos 1);
  tokens = floor_decrement c.tokens max_tokens;
}

-- The writes of a new count to `counters` and `updated`, of an event of the model
unfoldable pub count_for :
    Bytes → (RequestMetadataCount → RequestMetadataCount) → Counts × Counts → Counts × Counts
count_for model change (counters, updated) =
    if is_empty model
    then (counters, updated)
    else (let c = change (count_or_zero (Map.get bytes_dec model counters)) in
        (Map.put bytes_dec model c counters, Map.put bytes_dec model c updated))

module _ {F : Type 0} where
  -- the loop over the counts that changed
  unfoldable pub publish : Counts → Datastore F → Datastore F
  publish [] ds = ds
  publish ((model, c) ∷ updated) ds = publish updated (
      update_model model
        (put_attribute request_metadata_attribute_key (some (request_count c.requests c.tokens)))
        ds)

module _ ⦃S : StringSet⦄ ⦃N : Float64⦄ where
  unfoldable pub request_model : InferenceRequest → Bytes
  request_model request = text_or_empty (as_string (body_field request (codes "model")))

module _ ⦃S : StringSet⦄ ⦃N : Float64⦄ (truncate : N.F → ℤ) where
  unfoldable pub request_tokens : InferenceRequest → ℤ
  request_tokens request = elim (as_float (body_field request (codes "max_tokens"))) [
    | none ↦ truncate N.zero_f
    | some x ↦ truncate x
  ]

  unfoldable pub count_event : Event → Counts × Counts → Counts × Counts
  count_event (request_event request) s =
      count_for (request_model request) (count_request (request_tokens request)) s
  count_event (response_event request response) s =
      count_for (request_model request) (count_response (request_tokens request)) s

  -- the loop over the events
  unfoldable pub count_events : List Event → Counts × Counts → Counts × Counts
  unfolding count_event
  count_events [] s = s
  count_events (ev ∷ events) s = count_events events (count_event ev s)

  -- `Extract`, which never fails
  unfoldable pub extract : List Event → Counts × Datastore N.F → Counts × Datastore N.F
  unfolding count_events publish
  extract events (counters, ds) =
      let (counters', updated) = count_events events (counters, []) in
      (counters', publish updated ds)
