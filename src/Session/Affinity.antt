-- ===== src/Session/Affinity.antt =====
-- pkg/framework/plugins/modelselector/scorer/sessionaffinity/plugin.go: a session over two
-- requests.
use llm_d_inference_payload.Prelude.{
  text_or_empty, Bytes, bytes_dec, codes, StringSet, Float64, false, List, [], ◌∷◌, some, is_empty,
  ◌≡◌, refl, ap, arith, ℕ, ◌+◌, ◌≤◌, ◌<◌,
}
use llm_d_inference_payload.Prelude.Map
use llm_d_inference_payload.Json.{as_string}
use llm_d_inference_payload.DataLayer.{Model}
use llm_d_inference_payload.Message.{body_field}
use llm_d_inference_payload.Message.Headers.{get-set_header}
use llm_d_inference_payload.Errors.{ok}
use llm_d_inference_payload.Framework.{InferenceRequest, InferenceResponse}
use llm_d_inference_payload.CycleState.{CycleState, text, write, read_cycle_state_key, found}
use llm_d_inference_payload.CycleState.Echo.{read-write}
use llm_d_inference_payload.Session.{
  SessionCache, World, cycle_state_session_id_key, prefer, score_session, score, session_of,
  record_session, process_response,
}

module _ ⦃S : StringSet⦄ ⦃N : Float64⦄ (K : SessionCache) (session_id_key : Bytes) where
  -- a scored session is that of the cycle state
  session_of-score_session :
      (new_uuid : World K.Cache → Bytes) (session : Bytes) (models : List (Model N.F))
      (w : World K.Cache)
      → is_empty session ≡ false
      → session_of K session_id_key new_uuid (score_session K session_id_key session models w).1
        ≡ session
  unfolding session_of score_session
  session_of-score_session new_uuid [] models w n = absurd (ground arith)
  session_of-score_session new_uuid (c ∷ s) models w n =
      let e : read_cycle_state_key cycle_state_session_id_key
            (write cycle_state_session_id_key (text (c ∷ s)) w.cycle)
          ≡ found (c ∷ s) =
        read-write cycle_state_session_id_key (c ∷ s) w.cycle in
      rw (e, session_of) refl

  now-score_session :
      (session : Bytes) (models : List (Model N.F)) (w : World K.Cache)
      → (score_session K session_id_key session models w).1.now ≡ w.now
  unfolding score_session
  now-score_session [] models w = refl
  now-score_session (c ∷ s) models w = refl

  -- what a session's score is after the session is recorded
  score_session-record_session :
      (new_uuid : World K.Cache → Bytes) (model : Bytes) (response : InferenceResponse)
      (w : World K.Cache) (session : Bytes) (cycle : CycleState) (later : ℕ)
      (models : List (Model N.F))
      → w.now ≤ later
      → later < w.now + K.ttl
      → is_empty model ≡ false
      → is_empty session ≡ false
      → session_of K session_id_key new_uuid w ≡ session
      → let (answer, w', r) = record_session K session_id_key new_uuid model response w in
        (Map.get bytes_dec session_id_key answer.message.headers ≡ some session)
        × (r ≡ ok tt)
        × ((score_session K session_id_key session models
              (record w' { cycle = cycle; now = later })).0
            ≡ prefer model models)
  unfolding record_session score_session
  score_session-record_session new_uuid [] response w session cycle later models l u m n e =
      absurd (ground arith)
  score_session-record_session new_uuid (c ∷ model) response w [] cycle later models l u m n e =
      absurd (ground arith)
  score_session-record_session new_uuid (c ∷ model) response w (d ∷ session) cycle later models l u
        m n e =
      rw (e, record_session)
        (
          get-set_header response.message session_id_key (d ∷ session),
          refl,
          (let hit : (K.get later (d ∷ session) (K.add w.now (d ∷ session) (c ∷ model) w.cache)).0
                  ≡ some (c ∷ model) =
                K.get-add w.now later (d ∷ session) (c ∷ model) w.cache l u in
              rw (hit, score_session) refl),
        )

  -- If a request with a session is scored, and the response to it, processed next, names a model,
  -- then the response carries the session in its header. A request of the session that is scored on
  -- the very cache that the response left, on whatever cycle state and before the time to live is
  -- over, has the score 1 for the candidates of that model's name and the score 0 for every other
  -- candidate. The cache has what was added last for the time to live.
  pub process_response-score :
      (new_uuid : World K.Cache → Bytes) (request later : InferenceRequest)
      (models candidates : List (Model N.F)) (response : InferenceResponse) (w : World K.Cache)
      (cycle : CycleState) (time : ℕ) (session model : Bytes)
      → w.now ≤ time
      → time < w.now + K.ttl
      → text_or_empty (Map.get bytes_dec session_id_key request.headers) ≡ session
      → text_or_empty (Map.get bytes_dec session_id_key later.headers) ≡ session
      → text_or_empty (as_string (body_field response.message (codes "model"))) ≡ model
      → is_empty session ≡ false
      → is_empty model ≡ false
      → let (_, w1, _) = score K session_id_key request models w in
        let (answer, w2, r) = process_response K session_id_key new_uuid response w1 in
        (Map.get bytes_dec session_id_key answer.message.headers ≡ some session)
        × (r ≡ ok tt)
        × ((score K session_id_key later candidates (record w2 { cycle = cycle; now = time })).2
            ≡ ok (prefer model candidates))
  unfolding score process_response
  process_response-score new_uuid request later models candidates response w cycle time session
        model l u a b c n m =
      let w1 = (score_session K session_id_key session models w).1 in
      let same : w1.now ≡ w.now = now-score_session session models w in
      let (answer, r, scores) =
        score_session-record_session new_uuid model response w1 session cycle time candidates
          (rw same l) (rw same u) m n (session_of-score_session new_uuid session models w n) in
      rw (a, b, c) (answer, r, ap ok scores)
