-- ===== src/Handlers/Sse/Reading.antt =====
-- pkg/handlers/response.go, `parseSSEResponseBody`: which fields the loop over the lines writes.
use llm_d_inference_payload.Prelude.{
  Bytes, bytes_dec, codes, trim_space, strip_prefix, List, [], ◌∷◌, Option, none, some, is_empty,
  ite, ◌≡◌, refl, sym, subst, ◌∙◌, arith, Option-cases, Bool-cases, inl, inr,
}
use llm_d_inference_payload.Prelude.Map
use llm_d_inference_payload.Prelude.Map.{Map}
use llm_d_inference_payload.Json.{Value, Items, nil, cons, Fields, as_map, as_slice, field_of?}
use llm_d_inference_payload.Handlers.Sse.{
  SseState, non_empty_string, set_model, write_text, set_stop_reason, read_delta, read_choice,
  read_choices, merge_usage, read_usage, body_get, read_event, read_line, read_lines,
}

-- the keys that the parser writes, but for the content
pub data Other : Bytes → Type 0 where
  model : Other (codes "model")
  usage : Other (codes "usage")
  kind : Other (codes "type")
  role : Other (codes "role")
  stop : Other (codes "stop_reason")

module _ {F : Type 0} where
  -- no `choices` among the fields
  abbrev pub NoChoices : Map Bytes (Value F) → Type 0
  NoChoices m = Map.get bytes_dec (codes "choices") m ≡ none

  -- nor a `content`
  abbrev pub Clean : Map Bytes (Value F) → Type 0
  Clean m = NoChoices m × (Map.get bytes_dec (codes "content") m ≡ none)

  pub put-Other :
      {k : Bytes} (v : Value F) (m : Map Bytes (Value F))
      → Other k
      → (Map.get bytes_dec (codes "choices") (Map.put bytes_dec k v m)
          ≡ Map.get bytes_dec (codes "choices") m)
        × (Map.get bytes_dec (codes "content") (Map.put bytes_dec k v m)
            ≡ Map.get bytes_dec (codes "content") m)
  unfolding bytes_dec
  put-Other v m model =
      (Map.get-put bytes_dec _ (codes "choices") v m, Map.get-put bytes_dec _ (codes "content") v m)
  put-Other v m usage =
      (Map.get-put bytes_dec _ (codes "choices") v m, Map.get-put bytes_dec _ (codes "content") v m)
  put-Other v m kind =
      (Map.get-put bytes_dec _ (codes "choices") v m, Map.get-put bytes_dec _ (codes "content") v m)
  put-Other v m role =
      (Map.get-put bytes_dec _ (codes "choices") v m, Map.get-put bytes_dec _ (codes "content") v m)
  put-Other v m stop =
      (Map.get-put bytes_dec _ (codes "choices") v m, Map.get-put bytes_dec _ (codes "content") v m)

  pub put_content :
      (v : Value F) (m : Map Bytes (Value F))
      → Map.get bytes_dec (codes "choices") (Map.put bytes_dec (codes "content") v m)
        ≡ Map.get bytes_dec (codes "choices") m
  unfolding bytes_dec
  put_content v m = Map.get-put bytes_dec (codes "content") (codes "choices") v m

  put-Clean :
      {k : Bytes} (v : Value F) (m : Map Bytes (Value F))
      → Other k
      → Clean m
      → Clean (Map.put bytes_dec k v m)
  put-Clean v m o h = let (p, q) = put-Other v m o in (p ∙ h.0, q ∙ h.1)

  set_model-Clean :
      (v : Option (Value F)) (st : SseState F) → Clean st.result → Clean (set_model v st).result
  unfolding set_model
  set_model-Clean v st h = elim (Option-cases (non_empty_string v)) [
    | inl e ↦ rw (e, set_model) h
    | inr (s, e) ↦ rw (e, set_model) (put-Clean (Value.str s) st.result model h)
  ]

  write_text-result :
      (v : Option (Value F)) (st : SseState F) → (write_text v st).result ≡ st.result
  unfolding write_text
  write_text-result v st = ground arith

  set_stop_reason-result :
      (v : Option (Value F)) (st : SseState F) → (set_stop_reason v st).result ≡ st.result
  unfolding set_stop_reason
  set_stop_reason-result v st = ground arith

  read_delta-result :
      (d : Option (Fields F)) (st : SseState F) → (read_delta d st).result ≡ st.result
  unfolding read_delta
  read_delta-result none st = refl
  read_delta-result (some d) st =
      set_stop_reason-result (field_of? (codes "stop_reason") (some d)) _
      ∙ write_text-result (field_of? (codes "text") (some d)) st

  read_choice-result : (c : Value F) (st : SseState F) → (read_choice c st).result ≡ st.result
  unfolding read_choice
  read_choice-result c st =
      set_stop_reason-result (field_of? (codes "finish_reason") (as_map (some c))) _
      ∙ elim (Option-cases (as_map (field_of? (codes "delta") (as_map (some c))))) [
        | inl e ↦ rw e refl
        | inr (d, e) ↦ rw e (write_text-result (field_of? (codes "content") (some d)) st)
      ]

  read_choices-result : (cs : Items F) (st : SseState F) → (read_choices cs st).result ≡ st.result
  unfolding read_choices
  read_choices-result nil st = refl
  read_choices-result (cons c cs) st =
      read_choices-result cs (read_choice c st) ∙ read_choice-result c st

  merge_usage-Clean :
      (u : Option (Fields F)) (st : SseState F) → Clean st.result → Clean (merge_usage u st).result
  unfolding merge_usage
  merge_usage-Clean none st h = h
  merge_usage-Clean (some u) st h = put-Clean _ st.result usage h

  read_usage-Clean :
      (u : Option (Fields F)) (r : Option (Value F)) (st : SseState F)
      → Clean st.result
      → Clean (read_usage u r st).result
  unfolding read_usage
  read_usage-Clean (some u) r st h = merge_usage-Clean (some u) st h
  read_usage-Clean none r st h = elim (Option-cases (as_map r)) [
    | inl e ↦ rw (e, read_usage) h
    | inr (resp, e) ↦
        rw (e, read_usage)
          (merge_usage-Clean (as_map (field_of? (codes "usage") (some resp))) _
            (set_model-Clean (field_of? (codes "model") (some resp)) st h))
  ]

  message-Clean :
      (msg : Option (Fields F)) (st : SseState F)
      → Clean st.result
      → let st' : SseState F = elim msg [
        | none ↦ st
        | some m ↦ set_model (field_of? (codes "model") (some m)) st
      ] in
        Clean st'.result
  message-Clean none st h = h
  message-Clean (some m) st h = set_model-Clean (field_of? (codes "model") (some m)) st h

  choices-Clean :
      (cs : Option (Items F)) (st : SseState F)
      → Clean st.result
      → let st' : SseState F = elim cs [ none ↦ st | some choices ↦ read_choices choices st ] in
        Clean st'.result
  choices-Clean none st h = h
  choices-Clean (some choices) st h = subst Clean (sym (read_choices-result choices st)) h

  read_event-Clean :
      (event : Option (Map Bytes (Value F))) (st : SseState F)
      → Clean st.result
      → Clean (read_event event st).result
  unfolding read_event
  read_event-Clean event st h =
      let st₁ = set_model (body_get event (codes "model")) st in
      let d = as_map (body_get event (codes "delta")) in
      let st₂ = read_delta d st₁ in
      let h₂ : Clean st₂.result =
        subst Clean (sym (read_delta-result d st₁))
          (set_model-Clean (body_get event (codes "model")) st h) in
      read_usage-Clean (as_map (body_get event (codes "usage"))) (body_get event (codes "response"))
        _
        (choices-Clean (as_slice (body_get event (codes "choices"))) _
          (message-Clean (as_map (body_get event (codes "message"))) st₂ h₂))

  ite-Clean :
      {P : Type 0} (d : Dec P) (st st' : SseState F)
      → Clean st.result
      → Clean st'.result
      → Clean (ite d st st').result
  ite-Clean (yes p) st st' h h' = h
  ite-Clean (no p) st st' h h' = h'

  decoded-Clean :
      (event : Option (Map Bytes (Value F))) (failure : Option Bytes) (st : SseState F)
      → Clean st.result
      → let st' : SseState F = elim failure [ some _ ↦ st | none ↦ read_event event st ] in
        Clean st'.result
  decoded-Clean event none st h = read_event-Clean event st h
  decoded-Clean event (some x) st h = h

  read_line-Clean :
      (unmarshal : Bytes
        → Option (Map Bytes (Value F))
        → Option (Map Bytes (Value F)) × Option Bytes)
      (line : Bytes) (st : SseState F)
      → Clean st.result
      → Clean (read_line unmarshal line st).result
  unfolding read_line
  read_line-Clean unmarshal line st h =
      elim (Option-cases (strip_prefix (codes "data:") (trim_space line))) [
        | inl e ↦ rw (e, read_line) h
        | inr (rest, e) ↦
            let text = trim_space rest in
            elim (Bool-cases (is_empty text)) [
              | inl f ↦ rw (e, f, read_line) h
              | inr f ↦
                  rw (e, f, read_line)
                    (ite-Clean (bytes_dec text (codes "[DONE]")) st _ h
                      (decoded-Clean (unmarshal text none).0 (unmarshal text none).1 st h))
            ]
      ]

  pub read_lines-Clean :
      (unmarshal : Bytes
        → Option (Map Bytes (Value F))
        → Option (Map Bytes (Value F)) × Option Bytes)
      (lines : List Bytes) (st : SseState F)
      → Clean st.result
      → Clean (read_lines unmarshal lines st).result
  unfolding read_lines
  read_lines-Clean unmarshal [] st h = h
  read_lines-Clean unmarshal (l ∷ ls) st h =
      read_lines-Clean unmarshal ls (read_line unmarshal l st) (read_line-Clean unmarshal l st h)
