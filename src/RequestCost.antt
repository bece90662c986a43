-- ===== src/RequestCost.antt =====
-- pkg/framework/plugins/datalayer/requestcostmetadata/plugin.go: the costs of the responses, per
-- model. The digests of caio/go-tdigest are an interface. A time is a number of nanoseconds, and a
-- difference that would be negative is 0, which the comparisons here treat alike.
pub mod Frame
use llm_d_inference_payload.Prelude.{
  Bytes, bytes_dec, codes, StringSet, Float64, ℕ, zero, suc, ◌-◌, ltb, leb, Bool, true, false, ◌&&◌,
  ◌||◌, List, [], ◌∷◌, Option, none, some, is_empty, if◌then◌else◌,
}
use llm_d_inference_payload.Prelude.Map
use llm_d_inference_payload.Prelude.Map.{Map}
use llm_d_inference_payload.Json.{Value, Fields, as_string, as_float, as_map, field_of}
use llm_d_inference_payload.Message.{body_field}
use llm_d_inference_payload.DataLayer.{Attribute, token_prices}
use llm_d_inference_payload.DataLayer.Attributes.{put_attribute}
use llm_d_inference_payload.DataLayer.Datastore.{Datastore, get_or_create_model, update_model}
use llm_d_inference_payload.Framework.{InferenceRequest, InferenceResponse}
use llm_d_inference_payload.Handlers.{Event, request_event, response_event}
use llm_d_inference_payload.ModelConfig.{token_prices_attribute_key}

-- `tdigest.TDigest`: `new` and `add` may fail; `attribute` is the attribute with a copy of the
-- digest. `is_not_positive` is the test `x <= 0` of a float.
pub record CostDigests (F : Type 0) : Type 1 where
  pub Digest : Type 0
  pub new : F → Option Digest
  pub reset : Digest → Digest
  pub add : F → Digest → Option Digest
  pub attribute : Digest → Attribute F
  pub is_not_positive : F → Bool

abbrev pub cost_digest_attribute_key : Bytes
cost_digest_attribute_key = codes "cost_digest"

-- `modelCostAccumulator`
pub record Accumulator (D : Type 0) : Type 0 where
  pub digest : D
  pub last_flush : ℕ
  pub last_window_start : ℕ

-- the parameters of `RequestCostMetadataExtractor`, the durations in nanoseconds
pub record CostExtractor (F : Type 0) : Type 0 where
  pub compression : F
  pub flush_interval : ℕ
  pub window_duration : ℕ

-- What `Extract` changes: the accumulators, the data store, the prices of the batch, and the models
-- of the batch that have a new sample.
pub record Batch (F D : Type 0) : Type 0 where
  pub state : Map Bytes (Accumulator D)
  pub ds : Datastore F
  pub token_prices_cache : Map Bytes (F × F)
  pub updated : Map Bytes (Unit {0})

module _ ⦃N : Float64⦄ (K : CostDigests N.F) where
  -- `extractOpenAI`, `extractAnthropic` and `extractGoogle`, which differ in their keys
  unfoldable pub token_pair : Bytes → Bytes → Fields N.F → Option (N.F × N.F)
  token_pair prompt_key completion_key usage = elim (as_float (field_of prompt_key usage)) [
    | none ↦ none
    | some prompt ↦
        if K.is_not_positive prompt
        then none
        else (elim (as_float (field_of completion_key usage)) [
          | none ↦ none
          | some completion ↦
              if K.is_not_positive completion then none else some (prompt, completion)
        ])
  ]

  -- the part of `extractTokenCounts` under the key `usage`
  unfoldable pub usage_counts : Option (Fields N.F) → Option (N.F × N.F)
  unfolding token_pair
  usage_counts none = none
  usage_counts (some usage) = elim (field_of (codes "prompt_tokens") usage) [
    | some _ ↦ token_pair (codes "prompt_tokens") (codes "completion_tokens") usage
    | none ↦ elim (field_of (codes "input_tokens") usage) [
      | some _ ↦ token_pair (codes "input_tokens") (codes "output_tokens") usage
      | none ↦ none
    ]
  ]

  module _ ⦃S : StringSet⦄ where
    unfoldable pub extract_token_counts : InferenceResponse → Option (N.F × N.F)
    unfolding usage_counts
    extract_token_counts response =
        elim (as_map (body_field response.message (codes "usageMetadata"))) [
          | some um ↦ token_pair (codes "promptTokenCount") (codes "candidatesTokenCount") um
          | none ↦ usage_counts (as_map (body_field response.message (codes "usage")))
        ]

  -- the assertion of an attribute to prices
  unfoldable pub as_prices : Option (Attribute N.F) → Option (N.F × N.F)
  as_prices none = none
  as_prices (some v) = elim v [ token_prices input output ↦ some (input, output) | _ ↦ none ]

  -- The prices, and the data store, which has the model afterwards.
  unfoldable pub lookup_token_prices : Bytes → Datastore N.F → Option (N.F × N.F) × Datastore N.F
  unfolding get_or_create_model as_prices
  lookup_token_prices model ds =
      let (m, ds') = get_or_create_model model ds in
      (as_prices (Map.get bytes_dec token_prices_attribute_key m.attributes), ds')

  -- the prices by way of the cache of the batch
  unfoldable pub cached_prices :
      Bytes → Batch N.F K.Digest → Option (N.F × N.F) × Batch N.F K.Digest
  unfolding lookup_token_prices
  cached_prices model b = elim (Map.get bytes_dec model b.token_prices_cache) [
    | some tp ↦ (some tp, b)
    | none ↦
        let (found, ds) = lookup_token_prices model b.ds in
        (elim found [
          | none ↦ (none, record b { ds = ds })
          | some tp ↦ (
            some tp,
            record b {
              ds = ds;
              token_prices_cache = Map.put bytes_dec model tp b.token_prices_cache;
            },
          )
        ])
  ]

module _ ⦃N : Float64⦄ (K : CostDigests N.F) (e : CostExtractor N.F) (now : ℕ) where
  unfoldable pub get_or_create_accumulator :
      Option (Accumulator K.Digest) → Option (Accumulator K.Digest)
  get_or_create_accumulator (some acc) = some acc
  get_or_create_accumulator none = elim (K.new e.compression) [
    | none ↦ none
    | some d ↦ some (record { digest = d; last_flush = now; last_window_start = now })
  ]

  -- the reset at the end of a window
  unfoldable pub reset_window : Accumulator K.Digest → Accumulator K.Digest
  reset_window acc =
      if ltb 0 e.window_duration && leb e.window_duration (now - acc.last_window_start)
      then record acc { digest = K.reset acc.digest; last_window_start = now }
      else acc

  -- the part of the loop from the accumulator on
  unfoldable pub add_sample : Bytes → N.F → Batch N.F K.Digest → Batch N.F K.Digest
  unfolding get_or_create_accumulator reset_window
  add_sample model cost b = elim (get_or_create_accumulator (Map.get bytes_dec model b.state)) [
    | none ↦ b
    | some acc ↦
        let acc' = reset_window acc in
        (elim (K.add cost acc'.digest) [
          | none ↦ record b { state = Map.put bytes_dec model acc' b.state }
          | some d ↦ record b {
            state = Map.put bytes_dec model (record acc' { digest = d }) b.state;
            updated = Map.put bytes_dec model tt b.updated;
          }
        ])
  ]

  module _ ⦃S : StringSet⦄ where
    -- the part of the loop from the model on
    unfoldable pub sample_response :
        Bytes → InferenceResponse → Batch N.F K.Digest → Batch N.F K.Digest
    unfolding extract_token_counts add_sample
    sample_response model response b =
        let (prices, b') = cached_prices K model b in
        (elim prices [
          | none ↦ b'
          | some tp ↦ elim (extract_token_counts K response) [
            | none ↦ b'
            | some counts ↦ add_sample model (N.add (N.mul counts.0 tp.0) (N.mul counts.1 tp.1)) b'
          ]
        ])

    unfoldable pub sample_event : Event → Batch N.F K.Digest → Batch N.F K.Digest
    unfolding sample_response
    sample_event (request_event request) b = b
    sample_event (response_event request response) b =
        elim (as_string (body_field request (codes "model"))) [
          | none ↦ b
          | some model ↦ if is_empty model then b else sample_response model response b
        ]

    -- the loop over the events
    unfoldable pub sample_events : List Event → Batch N.F K.Digest → Batch N.F K.Digest
    unfolding sample_event
    sample_events [] b = b
    sample_events (ev ∷ events) b = sample_events events (sample_event ev b)

  -- a round of the loop that publishes
  unfoldable pub flush :
      Bytes → Option (Accumulator K.Digest) → Batch N.F K.Digest → Batch N.F K.Digest
  unfolding put_attribute
  flush model none b = b
  flush model (some acc) b =
      if ltb 0 e.flush_interval && ltb (now - acc.last_flush) e.flush_interval
      then b
      else record b {
        state = Map.put bytes_dec model (record acc { last_flush = now }) b.state;
        ds =
            update_model model
              (put_attribute cost_digest_attribute_key (some (K.attribute acc.digest))) b.ds;
      }

  unfoldable pub flush_all : Map Bytes (Unit {0}) → Batch N.F K.Digest → Batch N.F K.Digest
  unfolding flush
  flush_all [] b = b
  flush_all ((model, _) ∷ updated) b =
      flush_all updated (flush model (Map.get bytes_dec model b.state) b)

  -- `Extract`, which never fails; the time is that of the clock at its start
  unfoldable pub extract_costs :
      ⦃S : StringSet⦄
      → List Event
      → Map Bytes (Accumulator K.Digest) × Datastore N.F
      → Map Bytes (Accumulator K.Digest) × Datastore N.F
  unfolding sample_events flush_all
  extract_costs events (state, ds) =
      let b =
        sample_events events
          (record { state = state; ds = ds; token_prices_cache = []; updated = [] }) in
      let b' = flush_all b.updated b in (b'.state, b'.ds)
