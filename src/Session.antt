-- ===== src/Session.antt =====
-- pkg/framework/plugins/modelselector/scorer/sessionaffinity/plugin.go: a scorer that prefers the
-- model that served a session before. The cache of hashicorp/golang-lru is an interface; `new_uuid`
-- is a new text of github.com/google/uuid. Metrics are not modelled.
pub mod Affinity
use llm_d_inference_payload.Prelude.{
  text_or_empty, Bytes, bytes_dec, codes, StringSet, Float64, ℕ, zero, suc, ◌*◌, ltb, ◌+◌, ◌≤◌, ◌<◌,
  List, [], ◌∷◌, Option, none, some, is_empty, if◌then◌else◌, ite, ◌≡◌, refl, ℤ, pos, negsuc,
}
use llm_d_inference_payload.Prelude.Map
use llm_d_inference_payload.Json.{Value, as_string}
use llm_d_inference_payload.DataLayer.{Model}
use llm_d_inference_payload.Message.{set_header, body_field}
use llm_d_inference_payload.Errors.{Result, ok, err, panic}
use llm_d_inference_payload.Framework.{
  InferenceRequest, InferenceResponse, Scorer, ResponseProcessor,
}
use llm_d_inference_payload.CycleState.{
  CycleState, StoredValue, text, write, read_cycle_state_key, found, missing, mistyped,
}

-- `expirable.LRU[string, string]`, whose operations read the clock. What was added last is there
-- for the time to live. A read moves the entry to the front.
pub record SessionCache : Type 1 where
  pub Cache : Type 0
  pub ttl : ℕ
  pub get : ℕ → Bytes → Cache → Option Bytes × Cache
  pub add : ℕ → Bytes → Bytes → Cache → Cache
  pub get-add :
      (now later : ℕ) (k v : Bytes) (c : Cache)
      → now ≤ later
      → later < now + ttl
      → (get later k (add now k v c)).0 ≡ some v

-- The state of the plugins: the cycle state of the request, the cache, and the clock.
pub record World (C : Type 0) : Type 0 where
  pub cycle : CycleState
  pub cache : C
  pub now : ℕ

-- `SessionAffinityScorerConfig`
pub record SessionAffinityScorerConfig : Type 0 where
  pub session_id_key : Bytes
  pub max_sessions : ℤ
  pub ttl_seconds : ℤ

-- the defaults of `ScorerFactory`; the time to live is in seconds
unfoldable pub apply_session_defaults : SessionAffinityScorerConfig → SessionAffinityScorerConfig
apply_session_defaults config = record {
  session_id_key =
      if is_empty config.session_id_key then codes "x-session-id" else config.session_id_key;
  max_sessions = elim config.max_sessions [
    | negsuc n ↦ pos 10_000
    | pos n ↦ elim n [ zero ↦ pos 10_000 | suc m ↦ pos (suc m) ]
  ];
  ttl_seconds = elim config.ttl_seconds [
    | negsuc n ↦ pos 3600
    | pos n ↦ elim n [ zero ↦ pos 3600 | suc m ↦ pos (suc m) ]
  ];
}

abbrev pub cycle_state_session_id_key : Bytes
cycle_state_session_id_key = codes "session-affinity/session-id"

module _ ⦃N : Float64⦄ where
  -- the loop that gives every model the same score
  unfoldable pub no_opinion : List (Model N.F) → List (Model N.F × N.F)
  no_opinion [] = []
  no_opinion (m ∷ models) = (m, N.zero_f) ∷ no_opinion models

  -- The loop that prefers the previous model. Whether it is among the candidates only chooses a log
  -- line.
  unfoldable pub prefer : Bytes → List (Model N.F) → List (Model N.F × N.F)
  prefer previous [] = []
  prefer previous (m ∷ models) =
      (m, ite (bytes_dec m.name previous) N.one_f N.zero_f) ∷ prefer previous models

module _ ⦃S : StringSet⦄ ⦃N : Float64⦄ (K : SessionCache) (session_id_key : Bytes) where
  -- `Score`, on the session of the request
  unfoldable pub score_session :
      Bytes → List (Model N.F) → World K.Cache → List (Model N.F × N.F) × World K.Cache
  unfolding no_opinion prefer
  score_session session models w =
      if is_empty session
      then (no_opinion models, w)
      else (let (previous, cache) = K.get w.now session w.cache in
          (
            elim previous [ none ↦ no_opinion models | some model ↦ prefer model models ],
            record {
              cycle = write cycle_state_session_id_key (text session) w.cycle;
              cache = cache;
              now = w.now;
            },
          ))

  unfoldable pub score : Scorer (World K.Cache)
  unfolding score_session
  score request models w =
      let (scores, w') =
        score_session (text_or_empty (Map.get bytes_dec session_id_key request.headers)) models w in
      (request, w', ok scores)

  -- the session of the cycle state, or a new one
  unfoldable pub session_of : (World K.Cache → Bytes) → World K.Cache → Bytes
  session_of new_uuid w = elim (read_cycle_state_key cycle_state_session_id_key w.cycle) [
    | found s ↦ s
    | missing ↦ new_uuid w
    | mistyped e ↦ new_uuid w
  ]

  -- `ProcessResponse`, on the model of the response's body
  unfoldable pub record_session :
      (World K.Cache → Bytes)
      → Bytes
      → InferenceResponse
      → World K.Cache
      → InferenceResponse × World K.Cache × Result (Unit {0})
  unfolding session_of
  record_session new_uuid model response w = if is_empty model then (response, w, ok tt) else (
    record response {
      message = set_header response.message session_id_key (session_of new_uuid w);
    },
    record w { cache = K.add w.now (session_of new_uuid w) model w.cache },
    ok tt,
  )

  unfoldable pub process_response : (World K.Cache → Bytes) → ResponseProcessor (World K.Cache)
  unfolding record_session
  process_response new_uuid response w =
      record_session new_uuid
        (text_or_empty (as_string (body_field response.message (codes "model")))) response w
