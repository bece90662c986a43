-- ===== src/Handlers/Sse.antt =====
-- pkg/handlers/response.go, `parseSSEResponseBody`. Each event is decoded into a nil map.
pub mod Reading
pub mod Laws
use llm_d_inference_payload.Prelude.{
  ℕ, Bytes, bytes_dec, codes, trim_space, strip_prefix, StringSet, Float64, Bool, true, false, List,
  [], ◌∷◌, ◌++◌, Option, none, some, is_empty, if◌then◌else◌, ite, ◌==◌,
}
use llm_d_inference_payload.Prelude.Map
use llm_d_inference_payload.Prelude.Map.{Map}
use llm_d_inference_payload.Json.{
  Value, str, arr, obj, Items, nil, cons, Fields, end, field, as_string, as_map, as_slice,
  field_of?, merge_fields,
}
use llm_d_inference_payload.Handlers.{Body}

-- `bytes.Split(body, "\n")`
unfoldable pub push_byte : ℕ → List Bytes → List Bytes
push_byte c [] = (c ∷ []) ∷ []
push_byte c (l ∷ ls) = (c ∷ l) ∷ ls

unfoldable pub split_lines : Bytes → List Bytes
unfolding push_byte
split_lines [] = [] ∷ []
split_lines (c ∷ s) = let rest = split_lines s in if c == 10 then [] ∷ rest else push_byte c rest

-- The variables of the loop. The builder holds the text of its writes.
pub record SseState (F : Type 0) : Type 0 where
  pub result : Map Bytes (Value F)
  pub content_builder : Bytes
  pub stop_reason : Bytes

module _ {F : Type 0} where
  -- `x, ok := v.(string); ok && x != ""`
  unfoldable pub non_empty_string : Option (Value F) → Option Bytes
  unfolding as_string
  non_empty_string v = elim (as_string v) [
    | none ↦ none
    | some s ↦ if is_empty s then none else some s
  ]

  unfoldable pub set_model : Option (Value F) → SseState F → SseState F
  unfolding non_empty_string
  set_model v st = elim (non_empty_string v) [
    | none ↦ st
    | some m ↦ record st { result = Map.put bytes_dec (codes "model") (str m) st.result }
  ]

  unfoldable pub write_text : Option (Value F) → SseState F → SseState F
  unfolding as_string
  write_text v st = elim (as_string v) [
    | none ↦ st
    | some text ↦ record st { content_builder = st.content_builder ++ text }
  ]

  unfoldable pub set_stop_reason : Option (Value F) → SseState F → SseState F
  unfolding non_empty_string
  set_stop_reason v st = elim (non_empty_string v) [
    | none ↦ st
    | some r ↦ record st { stop_reason = r }
  ]

  -- the Anthropic delta
  unfoldable pub read_delta : Option (Fields F) → SseState F → SseState F
  unfolding write_text set_stop_reason field_of?
  read_delta none st = st
  read_delta (some delta) st =
      set_stop_reason (field_of? (codes "stop_reason") (some delta))
        (write_text (field_of? (codes "text") (some delta)) st)

  -- one entry of `choices`; one that is no object reads as nil
  unfoldable pub read_choice : Value F → SseState F → SseState F
  unfolding write_text set_stop_reason field_of? as_map
  read_choice c st =
      let choice = as_map (some c) in
      set_stop_reason (field_of? (codes "finish_reason") choice)
        (elim (as_map (field_of? (codes "delta") choice)) [
          | none ↦ st
          | some d ↦ write_text (field_of? (codes "content") (some d)) st
        ])

  unfoldable pub read_choices : Items F → SseState F → SseState F
  unfolding read_choice
  read_choices nil st = st
  read_choices (cons c cs) st = read_choices cs (read_choice c st)

  unfoldable pub merge_usage : Option (Fields F) → SseState F → SseState F
  unfolding merge_fields as_map
  merge_usage none st = st
  merge_usage (some usage) st =
      let existing : Fields F = elim (as_map (Map.get bytes_dec (codes "usage") st.result)) [
        | none ↦ end
        | some m ↦ m
      ] in
      record st {
        result = Map.put bytes_dec (codes "usage") (obj (merge_fields usage existing)) st.result;
      }

  -- the usage of the event, or of its nested response, whose model counts then too
  unfoldable pub read_usage : Option (Fields F) → Option (Value F) → SseState F → SseState F
  unfolding merge_usage set_model field_of? as_map
  read_usage (some usage) response st = merge_usage (some usage) st
  read_usage none response st = elim (as_map response) [
    | none ↦ st
    | some resp ↦
        merge_usage (as_map (field_of? (codes "usage") (some resp)))
          (set_model (field_of? (codes "model") (some resp)) st)
  ]

  abbrev pub body_get : Option (Map Bytes (Value F)) → Bytes → Option (Value F)
  body_get none k = none
  body_get (some m) k = Map.get bytes_dec k m

  -- what the loop does with a decoded event
  unfoldable pub read_event : Option (Map Bytes (Value F)) → SseState F → SseState F
  unfolding set_model read_delta read_choices read_usage field_of? as_map as_slice
  read_event event st =
      let st₁ = set_model (body_get event (codes "model")) st in
      let st₂ = read_delta (as_map (body_get event (codes "delta"))) st₁ in
      let st₃ : SseState F = elim (as_map (body_get event (codes "message"))) [
        | none ↦ st₂
        | some msg ↦ set_model (field_of? (codes "model") (some msg)) st₂
      ] in
      let st₄ : SseState F = elim (as_slice (body_get event (codes "choices"))) [
        | none ↦ st₃
        | some choices ↦ read_choices choices st₃
      ] in
      read_usage (as_map (body_get event (codes "usage"))) (body_get event (codes "response")) st₄

  -- `result[k] == nil`: the key is missing, or its value is null
  unfoldable pub put_if_nil : Bytes → Value F → Map Bytes (Value F) → Map Bytes (Value F)
  put_if_nil k v m = elim (Map.get bytes_dec k m) [
    | none ↦ Map.put bytes_dec k v m
    | some old ↦ elim old [ Value.null ↦ Map.put bytes_dec k v m | _ ↦ m ]
  ]

  abbrev pub content_blocks : Bytes → Value F
  content_blocks text = arr (
      cons (obj (field (codes "type") (str (codes "text")) (field (codes "text") (str text) end)))
        nil)

  unfoldable pub add_content : SseState F → Map Bytes (Value F)
  unfolding put_if_nil
  add_content st =
      if is_empty st.content_builder
      then st.result
      else elim (Map.get bytes_dec (codes "choices") st.result) [
        | some _ ↦ st.result
        | none ↦ put_if_nil (codes "role") (str (codes "assistant")) (
            put_if_nil (codes "type") (str (codes "message"))
              (Map.put bytes_dec (codes "content") (content_blocks st.content_builder) st.result))
      ]

  unfoldable pub add_stop_reason : Bytes → Map Bytes (Value F) → Map Bytes (Value F)
  add_stop_reason reason m =
      if is_empty reason then m else Map.put bytes_dec (codes "stop_reason") (str reason) m

  module _
      (unmarshal : Bytes
        → Option (Map Bytes (Value F))
        → Option (Map Bytes (Value F)) × Option Bytes) where
    unfoldable pub read_line : Bytes → SseState F → SseState F
    unfolding read_event trim_space strip_prefix
    read_line line st = elim (strip_prefix (codes "data:") (trim_space line)) [
      | none ↦ st
      | some rest ↦
          let text = trim_space rest in
          let (event, failure) = unmarshal text none in
          if is_empty text
          then st
          else ite (bytes_dec text (codes "[DONE]")) st
              (elim failure [ some _ ↦ st | none ↦ read_event event st ])
    ]

    unfoldable pub read_lines : List Bytes → SseState F → SseState F
    unfolding read_line
    read_lines [] st = st
    read_lines (l ∷ ls) st = read_lines ls (read_line l st)

    -- `none` is the nil map.
    unfoldable pub parse_sse_response_body : Bytes → Option (Map Bytes (Value F))
    unfolding split_lines read_lines add_content add_stop_reason
    parse_sse_response_body body =
        let st =
          read_lines (split_lines body)
            (record { result = []; content_builder = []; stop_reason = [] }) in
        if is_empty st.result then none else some (add_stop_reason st.stop_reason (add_content st))
