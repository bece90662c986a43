-- ===== src/Envoy/Chunking.antt =====
-- pkg/common/envoy/chunking.go. The loop recurs on fuel; the length of the body is enough, since
-- each round moves the index on.
pub mod Laws
use llm_d_inference_payload.Prelude.{
  Bytes, ℕ, zero, suc, ◌+◌, ◌-◌, min, Bool, true, false, ◌&&◌, if◌then◌else◌, ltb, leb, List, [],
  ◌∷◌, ◌++◌, none, some, length, take, drop,
}
use llm_d_inference_payload.Envoy.{CommonResponse, StreamedBodyResponse}

abbrev pub body_byte_limit : ℕ
body_byte_limit = 62000

-- the `CommonResponse` that both branches build
abbrev pub streamed : Bytes → Bool → CommonResponse
streamed body eos = record {
  clear_route_cache = false;
  header_mutation = none;
  body_mutation = some (record { body = body; end_of_stream = eos });
}

-- `bodyBytes[from : to]`
abbrev pub slice : Bytes → ℕ → ℕ → Bytes
slice body from to = take (to - from) (drop from body)

-- one round: the chunk at `starting_index`, and how long it is
unfoldable pub chunk_length : Bytes → ℕ → ℕ
chunk_length body starting_index = min (length body - starting_index) body_byte_limit

unfoldable pub chunk_at : Bytes → Bool → ℕ → CommonResponse
unfolding chunk_length
chunk_at body set_eos starting_index =
    let len = chunk_length body starting_index in
    streamed (slice body starting_index (len + starting_index))
      (set_eos && leb (length body) (len + starting_index))

unfoldable pub chunk_loop : ℕ → Bytes → Bool → ℕ → List CommonResponse → List CommonResponse
chunk_loop zero body set_eos starting_index responses = responses
chunk_loop (suc fuel) body set_eos starting_index responses =
    elim (ltb starting_index (length body)) [
      | false ↦ responses
      | true ↦
          chunk_loop fuel body set_eos (starting_index + chunk_length body starting_index)
            (responses ++ chunk_at body set_eos starting_index ∷ [])
    ]

unfoldable pub build_chunked_body_responses : Bytes → Bool → List CommonResponse
unfolding chunk_loop chunk_at
build_chunked_body_responses [] set_eos = streamed [] set_eos ∷ []
build_chunked_body_responses (b ∷ bs) set_eos = chunk_loop (length (b ∷ bs)) (b ∷ bs) set_eos 0 []
