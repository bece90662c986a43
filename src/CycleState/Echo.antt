-- ===== src/CycleState/Echo.antt =====
-- pkg/framework/plugins/responsehandling/modelnametoheader after the model selector of
-- pkg/framework/plugins/requesthandling/modelselector: the header of the response names the model.
use llm_d_inference_payload.Prelude.{
  Bytes, bytes_dec, codes, StringSet, Float64, false, List, some, is_empty, ◌≡◌, refl, ap, ◌∙◌, inl,
  inr, arith,
}
use llm_d_inference_payload.Prelude.Map
use llm_d_inference_payload.Prelude.Map.{Map}
use llm_d_inference_payload.Json.{Value}
use llm_d_inference_payload.DataLayer.{Model}
use llm_d_inference_payload.Message.{body_field}
use llm_d_inference_payload.Message.Headers.{get-set_header}
use llm_d_inference_payload.Errors.{ok}
use llm_d_inference_payload.Framework.{InferenceRequest, InferenceResponse}
use llm_d_inference_payload.Selector.{Pipeline, select}
use llm_d_inference_payload.Plugins.{process_model_request}
use llm_d_inference_payload.Plugins.Selection.{process_model_request-AsksFor}
use llm_d_inference_payload.CycleState.{
  CycleState, text, read, write, found, read_cycle_state_key, selected_model_cycle_state_key,
  process_response_headers,
}

pub read-write :
    (key s : Bytes) (c : CycleState) → read_cycle_state_key key (write key (text s) c) ≡ found s
unfolding read_cycle_state_key read write
read-write key s c =
    let e : Map.get bytes_dec key (Map.put bytes_dec key (text s) c) ≡ some (text s) =
      Map.get-put_self bytes_dec key (text s) c in
    rw (e, read_cycle_state_key) refl

module _ ⦃S : StringSet⦄ ⦃N : Float64⦄ {W : Type 0} (cycle : W → CycleState)
    (with_cycle : CycleState → W → W) where
  -- the write of the model selector plugin
  abbrev pub write_selected : Bytes → W → W
  write_selected name w = with_cycle (write selected_model_cycle_state_key (text name) (cycle w)) w

  echoes :
      (header name : Bytes) (response : InferenceResponse) (w : W)
      → read_cycle_state_key selected_model_cycle_state_key (cycle w) ≡ found name
      → (Map.get bytes_dec header
            (process_response_headers cycle header response w).0.message.headers
          ≡ some name)
        × ((process_response_headers cycle header response w).2 ≡ ok tt)
  unfolding process_response_headers
  echoes header name response w e =
      rw (e, process_response_headers) (get-set_header response.message header name, refl)

  -- The response names the model that its request asks for: if the model selector succeeds on a
  -- request whose body is a map after the selection, there is one name that the request's `model`
  -- field has and that the response's header is set to, on the cycle state that the selector
  -- leaves. A write of the cycle state is what is read afterwards.
  pub process_response_headers-process_model_request :
      ((c : CycleState) (w : W) → cycle (with_cycle c w) ≡ c)
      → (pipeline : Pipeline W) (get_models : W → List (Model N.F)) (request : InferenceRequest)
        (w : W) {b : Map Bytes (Value N.F)} (header : Bytes) (response : InferenceResponse)
      → (select pipeline request (get_models w) w).0.body ≡ some b
      → is_empty (get_models w) ≡ false
      → (process_model_request pipeline get_models write_selected request w).2 ≡ ok tt
      → let (after, w', _) = process_model_request pipeline get_models write_selected request w in
        let (answer, _, r) = process_response_headers cycle header response w' in
        (name : Bytes) × (body_field after (codes "model") ≡ some (Value.str name))
        × (Map.get bytes_dec header answer.message.headers ≡ some name)
        × (r ≡ ok tt)
  process_response_headers-process_model_request law pipeline get_models request w header response e
        n done =
      elim (process_model_request-AsksFor pipeline get_models write_selected request w e n) [
        | inl (m, _, asks, state, _) ↦
            let after = (process_model_request pipeline get_models write_selected request w).1 in
            let read : read_cycle_state_key selected_model_cycle_state_key (cycle after)
                ≡ found m.name =
              ap (λ z. read_cycle_state_key selected_model_cycle_state_key (cycle z)) state
              ∙ ap (read_cycle_state_key selected_model_cycle_state_key) (law _ _)
              ∙ read-write selected_model_cycle_state_key m.name _ in
            let (set, fine) = echoes header m.name response after read in
            (m.name, asks.model_field, set, fine)
        | inr (_, _, inl (x, _, q)) ↦ absurd (ground arith)
        | inr (_, _, inr (_, q)) ↦ absurd (ground arith)
      ]
