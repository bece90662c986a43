-- ===== src/Tests/Stores.antt =====
-- The store of adapters.
use llm_d_inference_payload.Prelude.{
  pos, Bytes, bytes_dec, codes, trim_space, true, false, List, [], ◌∷◌, none, some, ◌≡◌, refl, ◌⊎◌,
  inr, if◌then◌else◌, if_pos,
}
use llm_d_inference_payload.Prelude.Map
use llm_d_inference_payload.Adapters.{
  ConfigMap, AdaptersStore, name_dec, update_or_add, parse_config_map,
  config_map_update_or_add_if_not_exist, config_map_delete, get_base_model,
  parse_base_model_from_config_map, parse_adapters, insert_adapters,
}
use llm_d_inference_payload.Adapters.Lookup.{adapters_of, get-update_or_add, get-config_map_delete}
use llm_d_inference_payload.Adapters.Counters.{Counted}
use llm_d_inference_payload.Adapters.Restore.{delete-update_restores, changed_base_stays}
use llm_d_inference_payload.Tests.Fixtures.{sets}

-- a configmap for the base model `llama` with the adapter `lora`
abbrev configmap : ConfigMap
configmap = record {
  namespaced_name = (codes "default", codes "adapters");
  labels = [];
  data_section = (codes "baseModel", codes "llama") ∷ (codes "adapters", codes "- lora") ∷ [];
  marked_for_deletion = false;
}

abbrev lists : Bytes → Bytes ⊎ List Bytes
lists raw = inr (codes "lora" ∷ [])

abbrev lora : sets.Set
lora = sets.insert (codes "lora") sets.new

-- a store that holds the configmap for another base model
abbrev held : AdaptersStore
held = record {
  lora_adapter_to_base_model = (codes "lora", codes "qwen") ∷ [];
  configmap_adapters = ((codes "default", codes "adapters"), lora) ∷ [];
  base_models = (codes "qwen", pos 1) ∷ [];
}

get-update_or_add_example :
    Map.get bytes_dec
      (codes "lora")
      (update_or_add configmap.namespaced_name (codes "llama") lora held).lora_adapter_to_base_model
    ≡ (if sets.has lora (codes "lora")
        then some (codes "llama")
        else if sets.has (adapters_of held configmap.namespaced_name) (codes "lora")
        then none
        else Map.get bytes_dec (codes "lora") held.lora_adapter_to_base_model)
get-update_or_add_example =
    get-update_or_add configmap.namespaced_name (codes "llama") (codes "lora") lora held

get-config_map_delete_example :
    Map.get bytes_dec (codes "lora") (config_map_delete configmap held).lora_adapter_to_base_model
    ≡ (if sets.has (adapters_of held configmap.namespaced_name) (codes "lora")
        then none
        else Map.get bytes_dec (codes "lora") held.lora_adapter_to_base_model)
get-config_map_delete_example = get-config_map_delete configmap (codes "lora") held

parsed : parse_config_map lists configmap ≡ inr (codes "llama", lora)
unfolding parse_config_map parse_base_model_from_config_map parse_adapters insert_adapters bytes_dec
    Map.get trim_space
parsed = refl

held_name : Map.get name_dec configmap.namespaced_name held.configmap_adapters ≡ some lora
unfolding Map.get
held_name = if_pos (name_dec configmap.namespaced_name configmap.namespaced_name) refl _ _

uncounted : Map.get bytes_dec (codes "llama") held.base_models ≡ none
unfolding Map.get bytes_dec
uncounted = refl

unmapped : Map.get bytes_dec (codes "llama") held.lora_adapter_to_base_model ≡ none
unfolding Map.get bytes_dec
unmapped = refl

trimmed : trim_space (codes "llama") ≡ codes "llama"
unfolding trim_space
trimmed = refl

abbrev empty_store : AdaptersStore
empty_store = record { lora_adapter_to_base_model = []; configmap_adapters = []; base_models = [] }

no_name : Map.get name_dec configmap.namespaced_name empty_store.configmap_adapters ≡ none
unfolding Map.get
no_name = refl

fresh :
    (k : Bytes)
    → sets.has lora k ≡ true
    → Map.get bytes_dec k empty_store.lora_adapter_to_base_model ≡ none
unfolding Map.get
fresh k h = refl

no_count : Counted (Map.get bytes_dec (codes "llama") empty_store.base_models)
unfolding Map.get
no_count = tt

delete-update_restores_example :
    get_base_model
      (config_map_delete configmap
        (config_map_update_or_add_if_not_exist lists configmap empty_store).0)
      (codes "lora")
    ≡ get_base_model empty_store (codes "lora")
delete-update_restores_example =
    delete-update_restores lists configmap (codes "llama") lora empty_store parsed no_name fresh
      no_count (codes "lora")

changed_base_stays_example :
    (get_base_model held (codes "llama") ≡ [])
    × (get_base_model
          (config_map_delete configmap
            (config_map_update_or_add_if_not_exist lists configmap held).0)
          (codes "llama")
        ≡ codes "llama")
changed_base_stays_example =
    changed_base_stays lists configmap (codes "llama") lora lora held (codes "llama") parsed
      held_name uncounted unmapped trimmed
