-- ===== src/Plugins/Selection.antt =====
-- pkg/framework/plugins/requesthandling/modelselector/plugin.go: what a request carries after a
-- model is selected.
use llm_d_inference_payload.Prelude.{
  Bytes, bytes_dec, codes, StringSet, Float64, true, false, List, some, is_empty, ◌≡◌, ◌≢◌, refl,
  sym, ◌∙◌, inl, inr, ◌⊎◌, if_neg,
}
use llm_d_inference_payload.Prelude.Map
use llm_d_inference_payload.Prelude.Map.{Map}
use llm_d_inference_payload.Json.{Value}
use llm_d_inference_payload.DataLayer.{Model}
use llm_d_inference_payload.Message.{set_body_field, body_field}
use llm_d_inference_payload.Errors.{GoError, Result, ok, err, panic}
use llm_d_inference_payload.Errors.Cases.{Result-cases}
use llm_d_inference_payload.Framework.{InferenceRequest}
use llm_d_inference_payload.Selector.{Pipeline, select}
use llm_d_inference_payload.Plugins.{write_model, process_model_request}

module _ ⦃S : StringSet⦄ ⦃N : Float64⦄ {W : Type 0} (pipeline : Pipeline W)
    (get_models : W → List (Model N.F)) (write_selected : Bytes → W → W) where
  -- the request `after` asks for the model `m`, and differs from `before` only there
  pub record AsksFor (m : Model N.F) (before after : InferenceRequest) : Type 0 where
    pub model_field : body_field after (codes "model") ≡ some (Value.str m.name)
    pub other_fields : (k : Bytes) → k ≢ codes "model" → body_field after k ≡ body_field before k
    pub flag : after.body_mutated ≡ true
    pub same_headers : after.headers ≡ before.headers
    pub same_edits : after.mutated_headers ≡ before.mutated_headers

  written :
      (m : Model N.F) (request : InferenceRequest) (w : W) {b : Map Bytes (Value N.F)}
      → request.body ≡ some b
      → let v = Value.str m.name in
        write_model pipeline get_models write_selected m request w ≡ (
          record request {
            body = some (Map.put bytes_dec (codes "model") v b);
            body_mutated = true;
          },
          write_selected m.name w,
          ok tt,
        )
  unfolding write_model set_body_field
  written m request w e = rw (e, write_model, set_body_field) refl

  put-AsksFor :
      (m : Model N.F) (request : InferenceRequest) {b : Map Bytes (Value N.F)}
      → request.body ≡ some b
      → AsksFor m request (record request {
        body = some (Map.put bytes_dec (codes "model") (Value.str m.name) b);
        body_mutated = true;
      })
  unfolding body_field
  put-AsksFor m request {b} e = record {
    model_field = Map.get-put_self bytes_dec (codes "model") (Value.str m.name) b;
    other_fields = λ k n.
        Map.get-put bytes_dec (codes "model") k (Value.str m.name) b
        ∙ if_neg (bytes_dec (codes "model") k) (λ q. n (sym q)) _ _
        ∙ rw (e, body_field) refl;
    flag = refl;
    same_headers = refl;
    same_edits = refl;
  }

  -- what the plugin does with the outcome of the selection
  abbrev on_selected :
      Result (Model N.F) → InferenceRequest → W → InferenceRequest × W × Result (Unit {0})
  on_selected (ok m) request w = write_model pipeline get_models write_selected m request w
  on_selected (err e) request w = (request, w, err e)
  on_selected panic request w = (request, w, panic)

  outcome :
      (request : InferenceRequest) (w : W)
      → is_empty (get_models w) ≡ false
      → process_model_request pipeline get_models write_selected request w ≡ (
          let (request', w', selected) = select pipeline request (get_models w) w in
          on_selected selected request' w')
  unfolding process_model_request
  outcome request w n = elim (Result-cases (select pipeline request (get_models w) w).2) [
    | inl (m, q) ↦ rw (n, q, process_model_request) refl
    | inr (inl (x, q)) ↦ rw (n, q, process_model_request) refl
    | inr (inr q) ↦ rw (n, q, process_model_request) refl
  ]

  -- If the data store has candidates and the body is a map after the selection, the plugin does
  -- what the selection says: a selected model is what the request asks for afterwards, in the
  -- flagged body alone, and its name is written to the cycle state; an error or a panic of the
  -- selection is the plugin's, and leaves the request as the selection did.
  pub process_model_request-AsksFor :
      (request : InferenceRequest) (w : W) {b : Map Bytes (Value N.F)}
      → (select pipeline request (get_models w) w).0.body ≡ some b
      → is_empty (get_models w) ≡ false
      → let (request', w', selected) = select pipeline request (get_models w) w in
        let (after, w'', r) = process_model_request pipeline get_models write_selected request w in
        ((m : Model N.F) × (selected ≡ ok m)
          × AsksFor m request' after
          × (w'' ≡ write_selected m.name w')
          × (r ≡ ok tt))
        ⊎ ((after ≡ request')
            × (w'' ≡ w')
            × (((e : GoError) × (selected ≡ err e) × (r ≡ err e))
                ⊎ (selected ≡ panic) × (r ≡ panic)))
  process_model_request-AsksFor request w {b} e n =
      let (request', w', selected) = select pipeline request (get_models w) w in
      elim (Result-cases selected) [
        | inl (m, q) ↦
            rw (outcome request w n, q, written m request' w' e)
              (inl (m, refl, put-AsksFor m request' e, refl, refl))
        | inr (inl (x, q)) ↦ rw (outcome request w n, q) (inr (refl, refl, inl (x, refl, refl)))
        | inr (inr q) ↦ rw (outcome request w n, q) (inr (refl, refl, inr (refl, refl)))
      ]
