-- ===== src/CycleState.antt =====
-- pkg/framework/interface/plugin/cycle_state.go, and the plugin that answers with the selected
-- model, pkg/framework/plugins/responsehandling/modelnametoheader. The concurrent map makes each
-- operation one step. A value is a string or of another type. `decode` is the JSON decoder's.
pub mod Echo
use llm_d_inference_payload.Prelude.{
  Bytes, bytes_dec, codes, StringSet, Float64, List, [], ◌∷◌, ◌++◌, Option, none, some, is_empty,
  if◌then◌else◌,
}
use llm_d_inference_payload.Prelude.Map
use llm_d_inference_payload.Prelude.Map.{Map}
use llm_d_inference_payload.Message.{set_header}
use llm_d_inference_payload.Errors.{GoError, Result, ok, err, panic, plain, error_text}
use llm_d_inference_payload.Framework.{InferenceResponse, ResponseProcessor}

pub data StoredValue : Type 0 where
  text : Bytes → StoredValue
  -- a value of another type, with the type's name
  typed : Bytes → StoredValue

abbrev pub CycleState : Type 0
CycleState = Map Bytes StoredValue

abbrev pub new_cycle_state : CycleState
new_cycle_state = []

-- `ErrNotFound` is the one error of `Read`, which is `none`.
unfoldable pub read : Bytes → CycleState → Option StoredValue
read key c = Map.get bytes_dec key c

unfoldable pub write : Bytes → StoredValue → CycleState → CycleState
write key value c = Map.put bytes_dec key value c

unfoldable pub delete : Bytes → CycleState → CycleState
delete key c = Map.delete bytes_dec key c

abbrev pub err_not_found : GoError
err_not_found = plain (codes "not found")

-- The outcome of `ReadCycleStateKey[string]`: the string, the error that the key is not found, or
-- an error of another value
pub data StringRead : Type 0 where
  found : Bytes → StringRead
  missing : StringRead
  mistyped : GoError → StringRead

unfoldable pub read_cycle_state_key : Bytes → CycleState → StringRead
unfolding read
read_cycle_state_key key c = elim (read key c) [
  | none ↦ missing
  | some v ↦ elim v [
    | text s ↦ found s
    | typed t ↦
        mistyped (plain (codes "unexpected type for key \"" ++ (key ++ (codes "\": got " ++ t))))
  ]
]

abbrev pub selected_model_cycle_state_key : Bytes
selected_model_cycle_state_key = codes "model-selector/selected-model"

-- `PluginFactory`: the name of the header; `decode` gives the configured name
unfoldable pub header_name_of : (Bytes → Result Bytes) → Bytes → Result Bytes
header_name_of decode parameters =
    if is_empty parameters then ok (codes "X-Gateway-Model-Name") else (elim (decode parameters) [
      | ok name ↦ ok (if is_empty name then codes "X-Gateway-Model-Name" else name)
      | err e ↦ err (
          plain (
            codes "failed to parse the parameters of the 'model-name-to-header' plugin - "
            ++ error_text e))
      | panic ↦ panic
    ])

module _ ⦃S : StringSet⦄ ⦃N : Float64⦄ {W : Type 0} (cycle : W → CycleState) where
  -- `ModelNameToHeaderPlugin.ProcessResponseHeaders`; `cycle` is the cycle state in the plugins'
  -- state
  unfoldable pub process_response_headers : Bytes → ResponseProcessor W
  process_response_headers header_name response w =
      elim (read_cycle_state_key selected_model_cycle_state_key (cycle w)) [
        | missing ↦ (response, w, ok tt)
        | mistyped e ↦ (
          response,
          w,
          err (plain (codes "failed to read selected model from CycleState: " ++ error_text e)),
        )
        | found model ↦
            (record response { message = set_header response.message header_name model }, w, ok tt)
      ]
