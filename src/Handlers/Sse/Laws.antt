-- ===== src/Handlers/Sse/Laws.antt =====
-- pkg/handlers/response.go, `parseSSEResponseBody`: which form its result has.
use llm_d_inference_payload.Prelude.{
  Bytes, bytes_dec, codes, none, some, is_empty, if◌then◌else◌, ◌≡◌,
}
use llm_d_inference_payload.Prelude.Map
use llm_d_inference_payload.Prelude.Map.{Map}
use llm_d_inference_payload.Json.{Value}
use llm_d_inference_payload.Handlers.Sse.{content_blocks}

module _ {F : Type 0} where
  -- The form of the result, for the text that the events carry: no `choices`, and the content is
  -- one text block with that text, exactly if the text is not empty.
  pub record Form (text : Bytes) (m : Map Bytes (Value F)) : Type 0 where
    pub no_choices : Map.get bytes_dec (codes "choices") m ≡ none
    pub content_form :
        Map.get bytes_dec (codes "content") m
        ≡ (if is_empty text then none else some (content_blocks text))
