-- ===== src/Adapters/Restore.antt =====
-- pkg/framework/plugins/requesthandling/basemodelextractor/adapters_store.go: an update and the
-- deletion that follows it.
use llm_d_inference_payload.Prelude.{
  ℤ, pos, Bytes, bytes_dec, trim_space, StringSet, true, List, [], Option, none, some,
  if◌then◌else◌, ◌≡◌, refl, sym, ap, ◌∙◌, arith, Option-cases, Bool-cases, ◌⊎◌, inl, inr,
}
use llm_d_inference_payload.Prelude.Map
use llm_d_inference_payload.Prelude.Map.{Map, get-put, get-put_self, get-delete}
use llm_d_inference_payload.Adapters.{
  ConfigMap, NamespacedName, name_dec, AdaptersStore, parse_base_model_from_config_map,
  parse_config_map, decrement, count_base, uncount_base, update_or_add,
  config_map_update_or_add_if_not_exist, config_map_delete, get_base_model,
}
use llm_d_inference_payload.Adapters.Lookup.{adapters_of, get-update_or_add, get-config_map_delete}
use llm_d_inference_payload.Adapters.Counters.{
  if-if, none_either, Counted, uncount-count, uncount_base_new,
}

module _ ⦃S : StringSet⦄ where
  deleted_models :
      (c : ConfigMap) {base : Bytes} (known : S.Set) (st : AdaptersStore)
      → parse_base_model_from_config_map c ≡ inr base
      → Map.get name_dec c.namespaced_name st.configmap_adapters ≡ some known
      → (config_map_delete c st).base_models ≡ uncount_base base st.base_models
  unfolding config_map_delete
  deleted_models c known st p e = rw (e, p, config_map_delete) refl

  added_models :
      (name : NamespacedName) (base : Bytes) (new : S.Set) (st : AdaptersStore)
      → Map.get name_dec name st.configmap_adapters ≡ none
      → (update_or_add name base new st).base_models ≡ count_base base st.base_models
  unfolding update_or_add
  added_models name base new st e = rw (e, update_or_add) refl

  updated_models :
      (name : NamespacedName) (base : Bytes) (new known : S.Set) (st : AdaptersStore)
      → Map.get name_dec name st.configmap_adapters ≡ some known
      → (update_or_add name base new st).base_models ≡ st.base_models
  unfolding update_or_add
  updated_models name base new known st e = rw (e, update_or_add) refl

  known_after :
      (name : NamespacedName) (base : Bytes) (new : S.Set) (st : AdaptersStore)
      → Map.get name_dec name (update_or_add name base new st).configmap_adapters ≡ some new
  unfolding update_or_add
  known_after name base new st = get-put_self name_dec name new st.configmap_adapters

  adapters_of_known :
      (st : AdaptersStore) (name : NamespacedName) (known : S.Set)
      → Map.get name_dec name st.configmap_adapters ≡ some known
      → adapters_of st name ≡ known
  unfolding adapters_of
  adapters_of_known st name known e = rw (e, adapters_of) refl

  adapters_of_unknown :
      (st : AdaptersStore) (name : NamespacedName)
      → Map.get name_dec name st.configmap_adapters ≡ none
      → adapters_of st name ≡ S.new
  unfolding adapters_of
  adapters_of_unknown st name e = rw (e, adapters_of) refl

  parsed_base :
      (unmarshal_list : Bytes → Bytes ⊎ List Bytes) (c : ConfigMap) (base : Bytes) (new : S.Set)
      → parse_config_map unmarshal_list c ≡ inr (base, new)
      → parse_base_model_from_config_map c ≡ inr base
  unfolding parse_config_map
  parsed_base unmarshal_list c base new e = ground arith

  -- what a name is answered, from the two lookups of it
  answer : Bytes → Option Bytes → Option ℤ → Bytes
  answer name (some base) counted = base
  answer name none (some n) = name
  answer name none none = []

  get_base_model-answer :
      (st : AdaptersStore) (name : Bytes)
      → get_base_model st name
        ≡ answer
            (trim_space name)
            (Map.get bytes_dec (trim_space name) st.lora_adapter_to_base_model)
            (Map.get bytes_dec (trim_space name) st.base_models)
  unfolding get_base_model answer
  get_base_model-answer st name =
      elim (Option-cases (Map.get bytes_dec (trim_space name) st.lora_adapter_to_base_model)) [
        | inr (b, e) ↦ rw (e, get_base_model) refl
        | inl e ↦ elim (Option-cases (Map.get bytes_dec (trim_space name) st.base_models)) [
          | inl f ↦ rw (e, f, get_base_model) refl
          | inr (n, f) ↦ rw (e, f, get_base_model) refl
        ]
      ]

  get_base_model_ext :
      (st st' : AdaptersStore) (name : Bytes)
      → Map.get bytes_dec (trim_space name) st.lora_adapter_to_base_model
        ≡ Map.get bytes_dec (trim_space name) st'.lora_adapter_to_base_model
      → Map.get bytes_dec (trim_space name) st.base_models
        ≡ Map.get bytes_dec (trim_space name) st'.base_models
      → get_base_model st name ≡ get_base_model st' name
  get_base_model_ext st st' name e f =
      rw (get_base_model-answer st name, get_base_model-answer st' name, e, f) refl

  -- the store after a configmap is added or updated, and then deleted
  abbrev there_and_back : (Bytes → Bytes ⊎ List Bytes) → ConfigMap → AdaptersStore → AdaptersStore
  there_and_back unmarshal_list c st =
      config_map_delete c (config_map_update_or_add_if_not_exist unmarshal_list c st).0

  there_and_back_lem :
      (unmarshal_list : Bytes → Bytes ⊎ List Bytes) (c : ConfigMap) (base : Bytes) (new : S.Set)
      (st : AdaptersStore)
      → parse_config_map unmarshal_list c ≡ inr (base, new)
      → there_and_back unmarshal_list c st
        ≡ config_map_delete c (update_or_add c.namespaced_name base new st)
  unfolding config_map_update_or_add_if_not_exist
  there_and_back_lem unmarshal_list c base new st e =
      rw (e, config_map_update_or_add_if_not_exist) refl

  -- after both, an adapter that the configmap lists or listed maps to nothing
  get-there_and_back :
      (c : ConfigMap) (base k : Bytes) (new : S.Set) (st : AdaptersStore)
      → Map.get bytes_dec k
          (config_map_delete c
            (update_or_add c.namespaced_name base new st)).lora_adapter_to_base_model
        ≡ (if S.has new k
            then none
            else if S.has (adapters_of st c.namespaced_name) k
            then none
            else Map.get bytes_dec k st.lora_adapter_to_base_model)
  get-there_and_back c base k new st =
      let name = c.namespaced_name in
      let st' = update_or_add name base new st in
      get-config_map_delete c k st'
      ∙ rw
          (
            adapters_of_known st' name new (known_after name base new st),
            get-update_or_add name base k new st,
          )
          (if-if (S.has new k) _ _ _)

  -- If a configmap that the store does not hold parses, lists no adapter that already maps to a
  -- base model, and no counter of its base model in the store is below one, then adding it and
  -- deleting it gives a store that answers every model name as the first one did.
  pub delete-update_restores :
      (unmarshal_list : Bytes → Bytes ⊎ List Bytes) (c : ConfigMap) (base : Bytes) (new : S.Set)
      (st : AdaptersStore)
      → parse_config_map unmarshal_list c ≡ inr (base, new)
      → Map.get name_dec c.namespaced_name st.configmap_adapters ≡ none
      → ((k : Bytes)
          → S.has new k ≡ true
          → Map.get bytes_dec k st.lora_adapter_to_base_model ≡ none)
      → Counted (Map.get bytes_dec base st.base_models)
      → (name : Bytes)
      → get_base_model
          (config_map_delete c (config_map_update_or_add_if_not_exist unmarshal_list c st).0)
          name
        ≡ get_base_model st name
  delete-update_restores unmarshal_list c base new st p unknown fresh counted name =
      let k = trim_space name in
      let st' = update_or_add c.namespaced_name base new st in
      ap (λ x. get_base_model x name) (there_and_back_lem unmarshal_list c base new st p)
      ∙ get_base_model_ext (config_map_delete c st') st name
          (get-there_and_back c base k new st ∙ elim (Bool-cases (S.has new k)) [
            | inl q ↦ rw q (sym (fresh k q))
            | inr q ↦ rw (q, adapters_of_unknown st c.namespaced_name unknown, S.has-new k) refl
          ])
          (ap (Map.get bytes_dec k) (
              deleted_models c new st' (parsed_base unmarshal_list c base new p)
                (known_after c.namespaced_name base new st)
              ∙ ap (uncount_base base) (added_models c.namespaced_name base new st unknown))
            ∙ uncount-count base k st.base_models counted)

  -- If a configmap that the store holds changes its base model to one that nothing in the store
  -- registers, the update does not count the new base model, and after the deletion of the
  -- configmap the store answers the new base model as registered, though it did not before.
  pub changed_base_stays :
      (unmarshal_list : Bytes → Bytes ⊎ List Bytes) (c : ConfigMap) (base : Bytes)
      (new known : S.Set) (st : AdaptersStore) (name : Bytes)
      → parse_config_map unmarshal_list c ≡ inr (base, new)
      → Map.get name_dec c.namespaced_name st.configmap_adapters ≡ some known
      → Map.get bytes_dec base st.base_models ≡ none
      → Map.get bytes_dec base st.lora_adapter_to_base_model ≡ none
      → trim_space name ≡ base
      → (get_base_model st name ≡ [])
        × (get_base_model
              (config_map_delete c (config_map_update_or_add_if_not_exist unmarshal_list c st).0)
              name
            ≡ base)
  changed_base_stays unmarshal_list c base new known st name p held uncounted unmapped t =
      let st' = update_or_add c.namespaced_name base new st in
      let models : (config_map_delete c st').base_models
          ≡ Map.put bytes_dec base (decrement (pos 0)) st.base_models =
        deleted_models c new st' (parsed_base unmarshal_list c base new p)
          (known_after c.namespaced_name base new st)
        ∙ ap (uncount_base base) (updated_models c.namespaced_name base new known st held)
        ∙ uncount_base_new base st.base_models uncounted in
      let adapters : Map.get bytes_dec base (config_map_delete c st').lora_adapter_to_base_model
          ≡ none =
        get-there_and_back c base base new st
        ∙ none_either _ (S.has new base) (S.has (adapters_of st c.namespaced_name) base) unmapped in
      (
        rw (get_base_model-answer st name, t, unmapped, uncounted) (unfold answer in refl),
        rw
            (
              there_and_back_lem unmarshal_list c base new st p,
              get_base_model-answer (config_map_delete c st') name,
              t,
              adapters,
              models,
              get-put_self bytes_dec base (decrement (pos 0)) st.base_models,
            )
            (unfold answer in refl),
      )
