-- ===== src/Plugins.antt =====
-- pkg/framework/plugins: request plugins and filters that are small. `sprint` is fmt's rendering of
-- a value by `%v`.
pub mod ModelGroup
pub mod Selection
use llm_d_inference_payload.Prelude.{
  Bytes, bytes_dec, codes, itoa, length, StringSet, Float64, Bool, true, false, List, [], ◌∷◌, ◌++◌,
  Option, none, some, is_empty, if◌then◌else◌,
}
use llm_d_inference_payload.Prelude.Map
use llm_d_inference_payload.Prelude.Map.{Map}
use llm_d_inference_payload.Json.{Value}
use llm_d_inference_payload.DataLayer.{Model, Attribute, groups}
use llm_d_inference_payload.Message.{set_header, set_body_field, body_field}
use llm_d_inference_payload.Errors.{Result, ok, err, panic, plain}
use llm_d_inference_payload.Framework.{
  InferenceRequest, Filter, Profile, ProfilePicker, RequestProcessor,
}
use llm_d_inference_payload.Selector.{Pipeline, select}

-- `BodyFieldToHeaderPlugin`
pub record BodyFieldToHeaderPlugin : Type 0 where
  pub field_name : Bytes
  pub header_name : Bytes

unfoldable pub new_body_field_to_header_plugin : Bytes → Bytes → Result BodyFieldToHeaderPlugin
new_body_field_to_header_plugin field header =
    if is_empty field
    then err (plain (codes "fieldName is required for plugin 'body-field-to-header'"))
    else if is_empty header
    then err (plain (codes "headerName is required for plugin 'body-field-to-header'"))
    else ok (record { field_name = field; header_name = header })

module _ ⦃S : StringSet⦄ ⦃N : Float64⦄ {W : Type 0} where
  unfoldable pub body_field_to_header :
      (Value N.F → Bytes) → BodyFieldToHeaderPlugin → RequestProcessor W
  unfolding set_header
  body_field_to_header sprint p request w = elim (body_field request p.field_name) [
    | none ↦ (request, w, ok tt)
    | some raw ↦
        if is_empty (sprint raw)
        then (request, w, ok tt)
        else (set_header request p.header_name (sprint raw), w, ok tt)
  ]

  -- `SingleProfilePicker.Pick`
  unfoldable pub pick_single : ProfilePicker W
  pick_single request [] w = (
    err (plain (codes "failed to select a single profile from " ++ (itoa 0 ++ codes " profiles"))),
    w,
  )
  pick_single request ((name, profile) ∷ []) w = (ok (some profile), w)
  pick_single request (p ∷ q ∷ profiles) w = (
    err (
        plain (
          codes "failed to select a single profile from "
          ++ (itoa (length (p ∷ q ∷ profiles)) ++ codes " profiles"))),
    w,
  )

-- `ModelSelectorPlugin.ProcessRequest`: `get_models` is the data store's, in the order that it
-- gives; `write_selected` is the write of the selected name to the cycle state.
module _ ⦃S : StringSet⦄ ⦃N : Float64⦄ {W : Type 0} (pipeline : Pipeline W)
    (get_models : W → List (Model N.F)) (write_selected : Bytes → W → W) where
  unfoldable pub write_model :
      Model N.F → InferenceRequest → W → InferenceRequest × W × Result (Unit {0})
  write_model m request w = elim (set_body_field request (codes "model") (Value.str m.name)) [
    | none ↦ (request, w, panic)
    | some request' ↦ (request', write_selected m.name w, ok tt)
  ]

  unfoldable pub process_model_request : RequestProcessor W
  unfolding write_model
  process_model_request request w =
      let (request', w', selected) = select pipeline request (get_models w) w in
      if is_empty (get_models w)
      then (request, w, err (plain (codes "no candidate models available in datastore")))
      else (elim selected [
        | err e ↦ (request', w', err e)
        | panic ↦ (request', w', panic)
        | ok m ↦ write_model m request' w'
      ])
