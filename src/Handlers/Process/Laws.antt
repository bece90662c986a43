-- ===== src/Handlers/Process/Laws.antt =====
-- pkg/handlers/server.go: how `Process` takes the request body messages of one stream.
pub mod Buffered
use llm_d_inference_payload.Prelude.{
  Bytes, codes, StringSet, Float64, ℕ, Bool, true, false, List, [], ◌∷◌, ◌++◌, Option, none, some,
  map, All, ◌≡◌, refl, sym, ap, subst, ◌∙◌, append-nil, append_assoc, arith, Option-cases, inl, inr,
  if◌then◌else◌,
}
use llm_d_inference_payload.Envoy.{ProcessingRequest, HttpBody, ProcessingResponse}
use llm_d_inference_payload.Errors.{GoError, Result, ok, err, panic}
use llm_d_inference_payload.Handlers.{Server}
use llm_d_inference_payload.Handlers.Process.{
  Stream, Input, request, End, panicked, returned, answer_error, on_request_body, on_response_body,
  dispatch, send_all, process,
}

-- the bytes of body messages, put together
abbrev pub joined_bodies : List HttpBody → Bytes
joined_bodies [] = []
joined_bodies (b ∷ bs) = b.body ++ joined_bodies bs

abbrev pub request_inputs : List HttpBody → List Input
request_inputs [] = []
request_inputs (b ∷ bs) = request (ProcessingRequest.request_body b) ∷ request_inputs bs

abbrev pub response_inputs : List HttpBody → List Input
response_inputs [] = []
response_inputs (b ∷ bs) = request (ProcessingRequest.response_body b) ∷ response_inputs bs

-- messages before the last
abbrev pub Open : List HttpBody → Type 0
Open bs = All (λ b. b.end_of_stream ≡ false) bs

-- a body in one message
abbrev pub whole : Bytes → HttpBody
whole body = record { body = body; end_of_stream = true }

-- an equation of triples, field by field
parts :
    {A B C : Type 0} {t : A × B × C} {a : A} {b : B} {c : C}
    → t ≡ (a, b, c)
    → (t.0 ≡ a) × (t.1 ≡ b) × (t.2 ≡ c)
parts e = (ap (λ u. u.0) e, ap (λ u. u.1) e, ap (λ u. u.2) e)

module _ ⦃S : StringSet⦄ ⦃N : Float64⦄ {W : Type 0} (status_code : GoError → ℕ)
    (send : ProcessingResponse → W → Option Bytes × W) (s : Server W) where
  abbrev run_on : Stream W → List Input → W → List ProcessingResponse × W × End
  run_on = process status_code send s

  -- one body message that is answered with nothing
  request_silent :
      (st st' : Stream W) (b : HttpBody) (inputs : List Input) (w : W)
      → on_request_body s st b w ≡ (st', w, ok [])
      → run_on st (request (ProcessingRequest.request_body b) ∷ inputs) w ≡ run_on st' inputs w
  unfolding process send_all dispatch
  request_silent st st' b inputs w e = let (e₀, e₁, e₂) = parts e in rw (e₂, e₀, e₁, process)

  response_silent :
      (st st' : Stream W) (b : HttpBody) (inputs : List Input) (w : W)
      → on_response_body s st b w ≡ (st', w, ok [])
      → run_on st (request (ProcessingRequest.response_body b) ∷ inputs) w ≡ run_on st' inputs w
  unfolding process send_all dispatch
  response_silent st st' b inputs w e = let (e₀, e₁, e₂) = parts e in rw (e₂, e₀, e₁, process)

  request_duplicates :
      (st : Stream W) (ds : List HttpBody) (inputs : List Input) (w : W)
      → st.request_body_complete ≡ true
      → run_on st (request_inputs ds ++ inputs) w ≡ run_on st inputs w
  request_duplicates st [] inputs w h = refl
  request_duplicates st (d ∷ ds) inputs w h =
      request_silent st st d (request_inputs ds ++ inputs) w (unfold on_request_body in rw h)
      ∙ request_duplicates st ds inputs w h

  -- what the loop does with the outcome of a message
  unfoldable pub after :
      List Input
      → Stream W × W × Result (List ProcessingResponse)
      → List ProcessingResponse × W × End
  after inputs (st, w, r) = elim r [
    | panic ↦ ([], w, panicked)
    | err e ↦ answer_error status_code send e w
    | ok rs ↦
        let (sent, w', failure) = send_all status_code send rs w in
        elim failure [
          | some e ↦ (sent, w', returned e)
          | none ↦ let (later, w'', end) = run_on st inputs w' in (sent ++ later, w'', end)
        ]
  ]

  pub run_on-request :
      (st : Stream W) (b : HttpBody) (inputs : List Input) (w : W)
      → run_on st (request (ProcessingRequest.request_body b) ∷ inputs) w
        ≡ after inputs (on_request_body s st b w)
  unfolding process dispatch after
  run_on-request st b inputs w = refl

  run_on-response :
      (st : Stream W) (b : HttpBody) (inputs : List Input) (w : W)
      → run_on st (request (ProcessingRequest.response_body b) ∷ inputs) w
        ≡ after inputs (on_response_body s st b w)
  unfolding process dispatch after
  run_on-response st b inputs w = refl

  after-inputs :
      (t : Stream W × W × Result (List ProcessingResponse)) (is js : List Input)
      → ((rs : List ProcessingResponse) → t.2 ≡ ok rs → (w : W) → run_on t.0 is w ≡ run_on t.0 js w)
      → after is t ≡ after js t
  unfolding after
  after-inputs (st, w, err e) is js h = refl
  after-inputs (st, w, panic) is js h = refl
  after-inputs (st, w, ok rs) is js h =
      let (sent, w', failure) = send_all status_code send rs w in
      elim (Option-cases failure) [
        | inl e ↦ rw (e, after) (rw (h rs refl w') refl)
        | inr (x, e) ↦ rw (e, after)
      ]

  request_open :
      (st : Stream W) (b : HttpBody) (w : W)
      → st.request_body_complete ≡ false
      → b.end_of_stream ≡ false
      → on_request_body s st b w
        ≡ (record st { request_body = st.request_body ++ b.body }, w, ok [])
  unfolding on_request_body
  request_open st b w h e = rw (h, e)

  request_chunks :
      (st : Stream W) (cs : List HttpBody) (inputs : List Input) (w : W)
      → st.request_body_complete ≡ false
      → Open cs
      → run_on st (request_inputs cs ++ inputs) w
        ≡ run_on (record st { request_body = st.request_body ++ joined_bodies cs }) inputs w
  request_chunks st [] inputs w h o =
      ap (λ x. run_on (record st { request_body = x }) inputs w) (sym (append-nil st.request_body))
  request_chunks st (c ∷ cs) inputs w h o =
      let st' = record st { request_body = st.request_body ++ c.body } in
      request_silent st st' c (request_inputs cs ++ inputs) w (request_open st c w h o.0)
      ∙ request_chunks st' cs inputs w h o.1
      ∙ ap (λ x. run_on (record st { request_body = x }) inputs w)
          (append_assoc st.request_body c.body (joined_bodies cs))

  request_last :
      (st : Stream W) (cs : List HttpBody) (b : HttpBody) (w : W)
      → st.request_body_complete ≡ false
      → b.end_of_stream ≡ true
      → on_request_body s (record st { request_body = st.request_body ++ joined_bodies cs }) b w
        ≡ on_request_body s st (whole (joined_bodies cs ++ b.body)) w
  unfolding on_request_body
  request_last st cs b w h e = rw (h, e, append_assoc st.request_body (joined_bodies cs) b.body)

  request_complete :
      (st : Stream W) (body : Bytes) (w : W)
      → st.request_body_complete ≡ false
      → (on_request_body s st (whole body) w).0.request_body_complete ≡ true
  unfolding on_request_body
  request_complete st body w h = rw h

  -- In a stream whose request body has not ended, however Envoy splits the body into messages, the
  -- last one ending it, and whatever body messages it delivers again after the end, the stream
  -- answers, changes the state and goes on exactly as if the body had come in one message.
  pub process_request_body_split :
      (st : Stream W) (cs : List HttpBody) (b : HttpBody) (ds : List HttpBody) (rest : List Input)
      (w : W)
      → st.request_body_complete ≡ false
      → Open cs
      → b.end_of_stream ≡ true
      → process status_code send s st
          (request_inputs cs
            ++ (request (ProcessingRequest.request_body b) ∷ (request_inputs ds ++ rest)))
          w
        ≡ process status_code send s st
            (request (ProcessingRequest.request_body (whole (joined_bodies cs ++ b.body))) ∷ rest)
            w
  process_request_body_split st cs b ds rest w h o e =
      let st' = record st { request_body = st.request_body ++ joined_bodies cs } in
      let t = on_request_body s st (whole (joined_bodies cs ++ b.body)) w in
      request_chunks st cs _ w h o
      ∙ run_on-request st' b (request_inputs ds ++ rest) w
      ∙ ap (after (request_inputs ds ++ rest)) (request_last st cs b w h e)
      ∙ after-inputs t (request_inputs ds ++ rest) rest (λ rs _ w'.
        request_duplicates t.0 ds rest w' (request_complete st (joined_bodies cs ++ b.body) w h))
      ∙ sym (run_on-request st (whole (joined_bodies cs ++ b.body)) rest w)
