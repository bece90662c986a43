-- ===== src/RequestMetadata/Flight.antt =====
-- pkg/framework/plugins/datalayer/requestmetadata/plugin.go: the count of the requests in flight,
-- as the events determine it.
use llm_d_inference_payload.Prelude.{
  Bytes, bytes_dec, StringSet, Float64, ℕ, suc, ◌+◌, ◌-◌, ◌<◌, ℤ, pos, is_negative, ◌-64◌, zero,
  two63, ◌+64◌, +64_pos, -64_pos, Bool, true, false, List, [], ◌∷◌, is_empty, if◌then◌else◌, length,
  ◌≡◌, refl, ap, ◌∙◌, ite, if_pos, if_neg, arith,
}
use llm_d_inference_payload.Prelude.Map
use llm_d_inference_payload.Prelude.Map.{Map, get-put}
use llm_d_inference_payload.Handlers.{Event, request_event, response_event}
use llm_d_inference_payload.RequestMetadata.{
  RequestMetadataCount, Counts, count_or_zero, count_for, count_request, count_response,
  request_model, floor_decrement, count_event, count_events,
}

floor_decrement_exact :
    (v n : ℤ) → v -64 pos 1 ≡ n → is_negative n ≡ false → floor_decrement v (pos 1) ≡ n
unfolding floor_decrement
floor_decrement_exact v n h k = rw (h, floor_decrement, k) refl

floor_decrement_one : (n : ℕ) → n < two63 → floor_decrement (pos n) (pos 1) ≡ pos (n - 1)
unfolding floor_decrement ◌-64◌
floor_decrement_one zero h = refl
floor_decrement_one (suc n) h =
    floor_decrement_exact (pos (suc n)) (pos (suc n - 1)) (-64_pos (suc n) 1 (omega arith) h) refl

-- the count of a model
abbrev pub requests_of : Bytes → Counts → ℤ
requests_of name counters = (count_or_zero (Map.get bytes_dec name counters)).requests

-- whether a request is of the model
abbrev pub is_of : Bytes → Bytes → Bool
is_of name model = if is_empty model then false else ite (bytes_dec model name) true false

module _ ⦃S : StringSet⦄ ⦃N : Float64⦄ where
  -- the number of the requests in flight: one more at a request of the model, and one less at its
  -- response, but not below zero
  abbrev pub in_flight : Bytes → List Event → ℕ → ℕ
  in_flight name [] n = n
  in_flight name (request_event r ∷ events) n =
      in_flight name events (if is_of name (request_model r) then n + 1 else n)
  in_flight name (response_event r a ∷ events) n =
      in_flight name events (if is_of name (request_model r) then n - 1 else n)

requests_of-count_for :
    (name model : Bytes) (change : RequestMetadataCount → RequestMetadataCount)
    (counters updated : Counts)
    → requests_of name (count_for model change (counters, updated)).0 ≡ (
        if is_of name model
        then (change (count_or_zero (Map.get bytes_dec name counters))).requests
        else requests_of name counters)
unfolding count_for
requests_of-count_for name [] change counters updated = refl
requests_of-count_for name (c ∷ model) change counters updated = elim (bytes_dec (c ∷ model) name) [
  | yes p ↦ rw (if_pos (bytes_dec (c ∷ model) name) p true false) (
      ap (λ z. (count_or_zero z).requests)
        (get-put bytes_dec (c ∷ model) name _ counters ∙ if_pos (bytes_dec (c ∷ model) name) p _ _)
      ∙ ap (λ z. (change (count_or_zero (Map.get bytes_dec z counters))).requests) p)
  | no p ↦ rw (if_neg (bytes_dec (c ∷ model) name) p true false) (
      ap (λ z. (count_or_zero z).requests)
        (get-put bytes_dec (c ∷ model) name _ counters ∙ if_neg (bytes_dec (c ∷ model) name) p _ _))
]

after_request :
    (b : Bool) (t : ℤ) (c : RequestMetadataCount) (n : ℕ)
    → n + 1 < two63
    → c.requests ≡ pos n
    → (if b then (count_request t c).requests else c.requests) ≡ pos (if b then n + 1 else n)
unfolding count_request
after_request true t c n h e = ap (λ z. z +64 pos 1) e ∙ +64_pos n 1 h
after_request false t c n h e = e

after_response :
    (b : Bool) (t : ℤ) (c : RequestMetadataCount) (n : ℕ)
    → n < two63
    → c.requests ≡ pos n
    → (if b then (count_response t c).requests else c.requests) ≡ pos (if b then n - 1 else n)
unfolding count_response
after_response true t c n h e = ap (λ z. floor_decrement z (pos 1)) e ∙ floor_decrement_one n h
after_response false t c n h e = e

module _ ⦃S : StringSet⦄ ⦃N : Float64⦄ (truncate : N.F → ℤ) where
  -- The counter of a model's requests is the number of its requests in flight: after events, it is
  -- what the fold of the events gives from the number before, where a response that no request
  -- goes before leaves zero. The number before and the events are fewer than 2^63 together.
  pub count_events-in_flight :
      (name : Bytes) (events : List Event) (n : ℕ) (counters updated : Counts)
      → n + length events < two63
      → requests_of name counters ≡ pos n
      → requests_of name (count_events truncate events (counters, updated)).0
        ≡ pos (in_flight name events n)
  unfolding count_events count_event
  count_events-in_flight name [] n counters updated h e = e
  count_events-in_flight name (request_event r ∷ events) n counters updated h e =
      count_events-in_flight name events _ _ _ (ground arith) (
        requests_of-count_for name (request_model r) _ counters updated
        ∙ after_request (is_of name (request_model r)) _ _ n (omega arith) e)
  count_events-in_flight name (response_event r a ∷ events) n counters updated h e =
      count_events-in_flight name events _ _ _ (ground arith) (
        requests_of-count_for name (request_model r) _ counters updated
        ∙ after_response (is_of name (request_model r)) _ _ n (omega arith) e)
