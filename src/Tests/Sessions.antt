-- ===== src/Tests/Sessions.antt =====
-- Sessions, the cycle state, and the scorer of loads.
use llm_d_inference_payload.Prelude.{
  text_or_empty, none, Bytes, bytes_dec, codes, ℕ, ◌≤◌, ℤ, pos, pos_part, false, List, [], ◌∷◌,
  some, All, Any, ◌≡◌, refl, arith,
}
use llm_d_inference_payload.Prelude.Map
use llm_d_inference_payload.Prelude.Map.{Map}
use llm_d_inference_payload.Message.{set_body_field, body_field}
use llm_d_inference_payload.Json.{Value, as_string}
use llm_d_inference_payload.DataLayer.{Model, request_count}
use llm_d_inference_payload.Errors.{ok}
use llm_d_inference_payload.Framework.{InferenceRequest, InferenceResponse, Picker}
use llm_d_inference_payload.Selector.{
  Pipeline, select, run, run_filter_plugins, run_scorer_plugins, run_picker_plugin,
}
use llm_d_inference_payload.Plugins.{process_model_request, write_model}
use llm_d_inference_payload.CycleState.{CycleState, process_response_headers}
use llm_d_inference_payload.CycleState.Echo.{
  write_selected, process_response_headers-process_model_request,
}
use llm_d_inference_payload.Session.{SessionCache, World, prefer, score, process_response}
use llm_d_inference_payload.Session.Affinity.{process_response-score}
use llm_d_inference_payload.Scorers.{inflight_request_count, score_by_load}
use llm_d_inference_payload.Prelude.{Option, true, ◌<◌, ◌⊎◌, length, get_elem?, set, ap}
use llm_d_inference_payload.DataLayer.{Attribute, other}
use llm_d_inference_payload.DataLayer.Attributes.{get_attribute, read_attribute_key}
use llm_d_inference_payload.Scorers.CostGuard.{
  Digests, CostGuardScorer, lookup_digest, is_under_explored, candidates, neutral_scores,
  score_by_guard,
}
use llm_d_inference_payload.Scorers.CostGuard.Exploring.{score_by_guard-Pick}
use llm_d_inference_payload.Scorers.Load.{load, IsCount, ratios, score_by_load-ratios}
use llm_d_inference_payload.Tests.Fixtures.{sets, floats, alpha, beta}

-- a request and a response of the model `alpha`, in a session
abbrev session_request : InferenceRequest
session_request = record {
  headers = (codes "x-session-id", codes "s1") ∷ [];
  body = some ((codes "model", Value.str (codes "alpha")) ∷ []);
  mutated_headers = [];
  removed_headers = sets.new;
  body_mutated = false;
}

abbrev alpha_response : InferenceResponse
alpha_response = record { message = session_request; current_chunk = []; chunk_mutated = false }

-- a cache that forgets nothing
abbrev map_cache : SessionCache
map_cache = record {
  Cache = Map Bytes Bytes;
  ttl = 3600;
  get = λ now k c. (Map.get bytes_dec k c, c);
  add = λ now k v c. Map.put bytes_dec k v c;
  get-add = λ now later k v c l u. Map.get-put_self bytes_dec k v c;
}

abbrev empty_world : World map_cache.Cache
empty_world = record { cycle = []; cache = []; now = 5 }

abbrev fixed_uuid : World map_cache.Cache → Bytes
fixed_uuid w = codes "new"

header_read :
    text_or_empty (Map.get bytes_dec (codes "x-session-id") session_request.headers) ≡ codes "s1"
unfolding Map.get bytes_dec
header_read = refl

model_read :
    text_or_empty (as_string (body_field alpha_response.message (codes "model"))) ≡ codes "alpha"
unfolding as_string body_field Map.get bytes_dec
model_read = refl

process_response-score_example :
    let (_, w1, _) =
      score map_cache (codes "x-session-id") session_request (alpha ∷ []) empty_world in
    let (answer, w2, r) =
      process_response map_cache (codes "x-session-id") fixed_uuid alpha_response w1 in
    (Map.get bytes_dec (codes "x-session-id") answer.message.headers ≡ some (codes "s1"))
    × (r ≡ ok tt)
    × ((score map_cache
          (codes "x-session-id")
          session_request
          (beta ∷ alpha ∷ [])
          (record w2 { cycle = []; now = 60 })).2
        ≡ ok (prefer (codes "alpha") (beta ∷ alpha ∷ [])))
process_response-score_example =
    process_response-score map_cache (codes "x-session-id") fixed_uuid session_request
      session_request (alpha ∷ []) (beta ∷ alpha ∷ []) alpha_response empty_world [] 60 (codes "s1")
      (codes "alpha") (omega arith) (omega arith) header_read header_read model_read refl refl

-- a picker that takes the first candidate
abbrev take_first : Picker CycleState
take_first models w = (ok (some alpha), w)

abbrev first_pipeline : Pipeline CycleState
first_pipeline = record { filters = []; scorers = []; picker = some take_first }

abbrev same_cycle : CycleState → CycleState
same_cycle w = w

abbrev new_cycle : CycleState → CycleState → CycleState
new_cycle c w = c

abbrev one_model : CycleState → List (Model floats.F)
one_model w = alpha ∷ []

selects :
    (process_model_request first_pipeline one_model
      (write_selected same_cycle new_cycle)
      session_request
      []).2
    ≡ ok tt
unfolding process_model_request select run run_filter_plugins run_scorer_plugins run_picker_plugin
    write_model set_body_field
selects = refl

body_kept :
    (select first_pipeline session_request (alpha ∷ []) []).0.body
    ≡ some ((codes "model", Value.str (codes "alpha")) ∷ [])
unfolding select run run_filter_plugins run_scorer_plugins run_picker_plugin
body_kept = refl

process_response_headers-process_model_request_example :
    let (after, w', _) =
      process_model_request first_pipeline one_model
        (write_selected same_cycle new_cycle)
        session_request
        [] in
    let (answer, _, r) =
      process_response_headers same_cycle (codes "X-Gateway-Model-Name") alpha_response w' in
    (name : Bytes) × (body_field after (codes "model") ≡ some (Value.str name))
    × (Map.get bytes_dec (codes "X-Gateway-Model-Name") answer.message.headers ≡ some name)
    × (r ≡ ok tt)
process_response_headers-process_model_request_example =
    process_response_headers-process_model_request same_cycle new_cycle (λ c w. refl) first_pipeline
      one_model session_request [] (codes "X-Gateway-Model-Name") alpha_response body_kept refl
      selects

abbrev busy : Model floats.F
busy = record {
  name = codes "busy";
  attributes = (codes "request-metadata", request_count (pos 7) (pos 0)) ∷ [];
}

counts : All IsCount (alpha ∷ busy ∷ [])
unfolding inflight_request_count Map.get bytes_dec
counts = ((refl, omega arith), ((refl, omega arith), tt))

-- the counts as thousandths
abbrev as_float : ℤ → floats.F
as_float z = floats.of_ℕ (pos_part z)

score_by_load-ratios_example :
    (least : ℕ) × (most : ℕ) × All (λ k. (least ≤ load k) × (load k ≤ most)) (alpha ∷ busy ∷ [])
    × Any (λ k. load k ≡ least) (alpha ∷ busy ∷ [])
    × Any (λ k. load k ≡ most) (alpha ∷ busy ∷ [])
    × (score_by_load as_float (alpha ∷ busy ∷ []) ≡ ratios as_float least most (alpha ∷ busy ∷ []))
score_by_load-ratios_example = score_by_load-ratios as_float alpha (busy ∷ []) counts

-- digests that are their counts; an attribute of another type is one of ten samples
abbrev digest_of : Attribute floats.F → Option ℕ
digest_of a = elim a [ other ↦ some 10 | _ ↦ none ]

abbrev digests : Digests floats.F
digests = record {
  Digest = ℕ;
  count = λ d. d;
  trimmed_mean = λ d from to. from;
  as_digest = digest_of;
  mismatch = λ a. codes "another type";
  exp = λ x. x;
  sqrt = λ x. x;
  ceil = λ x. 5;
  is_zero = λ x. false;
  le = λ a b. false;
  sort = λ xs. xs;
  half = floats.zero_f;
  z95 = floats.one_f;
  two = floats.of_ℕ 2;
}

abbrev guard : CostGuardScorer floats.F
guard = record {
  epsilon = floats.one_f;
  alpha = floats.zero_f;
  lambda = floats.zero_f;
  sample_threshold = 5;
}

abbrev sampled : Model floats.F
sampled = record { name = codes "sampled"; attributes = (codes "cost_digest", other) ∷ [] }

one_candidate : candidates digests guard (sampled ∷ alpha ∷ []) ≡ 1 ∷ []
unfolding candidates is_under_explored lookup_digest read_attribute_key get_attribute Map.get
    bytes_dec
one_candidate = refl

in_range : 0 < length (candidates digests guard (sampled ∷ alpha ∷ []))
in_range =
    let one : length (candidates digests guard (sampled ∷ alpha ∷ [])) ≡ 1 =
      ap length one_candidate in
    omega arith

score_by_guard-Pick_example :
    (i : ℕ) × (k : Model floats.F) × (get_elem? (sampled ∷ alpha ∷ []) i ≡ some k)
    × (score_by_guard digests guard floats.zero_f 0 (sampled ∷ alpha ∷ [])
        ≡ ok (set (neutral_scores digests guard (sampled ∷ alpha ∷ [])) i floats.one_f))
    × ((is_under_explored digests guard k ≡ true)
        ⊎ All (λ x. is_under_explored digests guard x ≡ false) (sampled ∷ alpha ∷ []))
score_by_guard-Pick_example =
    score_by_guard-Pick digests guard floats.zero_f 0 sampled (alpha ∷ []) floats.lt-zero-one
      in_range
