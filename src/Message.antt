-- ===== src/Message.antt =====
-- pkg/framework/interface/requesthandling/types.go: the message that the plugins edit, with the
-- record of its edits. A body value is any type `V`; a body that is a nil map is `none`.
pub mod Replay
pub mod Body
pub mod Headers
use llm_d_inference_payload.Prelude.{
  Bytes, bytes_dec, StringSet, Bool, true, false, Option, none, some, List, [], ite,
}
use llm_d_inference_payload.Prelude.Map
use llm_d_inference_payload.Prelude.Map.{Map}

pub record Message ⦃S : StringSet⦄ (V : Type 0) : Type 0 where
  pub headers : Map Bytes Bytes
  pub body : Option (Map Bytes V)
  pub mutated_headers : Map Bytes Bytes
  pub removed_headers : S.Set
  pub body_mutated : Bool

module _ ⦃S : StringSet⦄ {V : Type 0} where
  unfoldable pub new_inference_message : Message V
  new_inference_message = record {
    headers = [];
    body = some [];
    mutated_headers = [];
    removed_headers = S.new;
    body_mutated = false;
  }

  -- the assignments under the guard of `SetHeader`
  unfoldable pub write_header : Message V → Bytes → Bytes → Message V
  write_header r key value = record r {
    headers = Map.put bytes_dec key value r.headers;
    mutated_headers = Map.put bytes_dec key value r.mutated_headers;
    removed_headers = S.delete key r.removed_headers;
  }

  unfoldable pub set_header : Message V → Bytes → Bytes → Message V
  unfolding write_header
  set_header r key value = elim (Map.get bytes_dec key r.headers) [
    | none ↦ write_header r key value
    | some old ↦ ite (bytes_dec old value) r (write_header r key value)
  ]

  unfoldable pub remove_header : Message V → Bytes → Message V
  remove_header r key = elim (Map.get bytes_dec key r.headers) [
    | none ↦ r
    | some _ ↦ record r {
      headers = Map.delete bytes_dec key r.headers;
      mutated_headers = Map.delete bytes_dec key r.mutated_headers;
      removed_headers = S.insert key r.removed_headers;
    }
  ]

  unfoldable pub set_body : Message V → Option (Map Bytes V) → Message V
  set_body r body = record r { body = body; body_mutated = true }

  -- `r.Body[key]`; a read of a nil map finds nothing
  unfoldable pub body_field : Message V → Bytes → Option V
  body_field r key = elim r.body [ none ↦ none | some b ↦ Map.get bytes_dec key b ]

  -- A write to a nil map panics, which is `none`.
  unfoldable pub set_body_field : Message V → Bytes → V → Option (Message V)
  set_body_field r key value = elim r.body [
    | none ↦ none
    | some b ↦ some (record r { body = some (Map.put bytes_dec key value b); body_mutated = true })
  ]

  unfoldable pub remove_body_field : Message V → Bytes → Message V
  remove_body_field r key = elim r.body [
    | none ↦ r
    | some b ↦ elim (Map.get bytes_dec key b) [
      | none ↦ r
      | some _ ↦ record r { body = some (Map.delete bytes_dec key b); body_mutated = true }
    ]
  ]

-- `InferenceResponse`: a message with the chunk that is being processed
pub record Response ⦃S : StringSet⦄ (V : Type 0) : Type 0 where
  pub message : Message V
  pub open message use *
  pub current_chunk : Bytes
  pub chunk_mutated : Bool

module _ ⦃S : StringSet⦄ {V : Type 0} where
  unfoldable pub new_inference_response : Response V
  unfolding new_inference_message
  new_inference_response = record {
    message = new_inference_message;
    current_chunk = [];
    chunk_mutated = false;
  }

  unfoldable pub set_chunk : Response V → Bytes → Response V
  set_chunk r chunk = record r { current_chunk = chunk; chunk_mutated = true }

  unfoldable pub reset_chunk_state : Response V → Bytes → Response V
  reset_chunk_state r chunk = record r { current_chunk = chunk; chunk_mutated = false }
