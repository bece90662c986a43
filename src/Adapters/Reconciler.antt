-- ===== src/Adapters/Reconciler.antt =====
-- pkg/framework/plugins/requesthandling/basemodelextractor/configmap_reconciler.go, and
-- `ProcessRequest` of base_model_to_header.go.
use llm_d_inference_payload.Prelude.{
  Bytes, bytes_dec, codes, StringSet, Float64, Bool, true, false, List, ◌++◌, Option, none, some,
  ite, if◌then◌else◌, ◌||◌, not, ◌⊎◌,
}
use llm_d_inference_payload.Prelude.Map
use llm_d_inference_payload.Prelude.Map.{Map}
use llm_d_inference_payload.Message.{set_header, body_field}
use llm_d_inference_payload.Json.{Value}
use llm_d_inference_payload.Framework.{InferenceRequest}
use llm_d_inference_payload.Errors.{GoError, plain, error_text}
use llm_d_inference_payload.Adapters.{
  ConfigMap, AdaptersStore, config_map_update_or_add_if_not_exist, config_map_delete,
  get_base_model,
}

unfoldable pub has_ipp_managed_label : ConfigMap → Bool
has_ipp_managed_label c =
    elim (Map.get bytes_dec (codes "inference.llm-d.ai/ipp-managed") c.labels) [
      | none ↦ false
      | some v ↦ ite (bytes_dec v (codes "true")) true false
    ]

-- the events that a predicate sees
pub data WatchEvent : Type 0 where
  create : ConfigMap → WatchEvent
  update : ConfigMap → ConfigMap → WatchEvent
  delete : ConfigMap → WatchEvent
  generic : ConfigMap → WatchEvent

unfoldable pub ipp_managed_predicate : WatchEvent → Bool
unfolding has_ipp_managed_label
ipp_managed_predicate (create c) = has_ipp_managed_label c
ipp_managed_predicate (update old new) = has_ipp_managed_label old || has_ipp_managed_label new
ipp_managed_predicate (delete c) = has_ipp_managed_label c
ipp_managed_predicate (generic c) = has_ipp_managed_label c

-- What the API server's `Get` gives: the object, an error that says it is missing, with the object
-- as the call leaves it, or another error.
pub data Fetched : Type 0 where
  object : ConfigMap → Fetched
  missing : ConfigMap → Fetched
  failed : Bytes → Fetched

module _ ⦃S : StringSet⦄ (unmarshal_list : Bytes → Bytes ⊎ List Bytes) where
  -- the end of `Reconcile`
  unfoldable pub apply_config_map : ConfigMap → AdaptersStore → AdaptersStore × Option GoError
  apply_config_map c st =
      let (st', failure) = config_map_update_or_add_if_not_exist unmarshal_list c st in
      (
        st',
        elim failure [
          | none ↦ none
          | some e ↦ some (plain (codes "failed to add or update ConfigMap - " ++ error_text e))
        ],
      )

  unfoldable pub reconcile : Fetched → AdaptersStore → AdaptersStore × Option GoError
  unfolding has_ipp_managed_label
  reconcile (failed text) st = (st, some (plain (codes "unable to get ConfigMap - " ++ text)))
  reconcile (missing c) st = (config_map_delete c st, none)
  reconcile (object c) st =
      if c.marked_for_deletion || not (has_ipp_managed_label c)
      then (config_map_delete c st, none)
      else apply_config_map c st

module _ ⦃S : StringSet⦄ ⦃N : Float64⦄ where
  -- `sprint` is fmt's rendering of a value by `%v`.
  unfoldable pub set_base_model_header :
      (Value N.F → Bytes) → AdaptersStore → InferenceRequest → InferenceRequest
  set_base_model_header sprint st request = elim (body_field request (codes "model")) [
    | none ↦ request
    | some raw ↦
        set_header request (codes "X-Gateway-Base-Model-Name") (get_base_model st (sprint raw))
  ]
