-- ===== src/Adapters/Lookup.antt =====
-- pkg/framework/plugins/requesthandling/basemodelextractor/adapters_store.go: what the adapters map
-- to after an update and after a deletion.
use llm_d_inference_payload.Prelude.{
  Bytes, bytes_dec, contains, StringSet, Bool, true, false, List, [], ◌∷◌, Option, none, some,
  if◌then◌else◌, ◌≡◌, refl, ◌∙◌, arith, Option-cases, inl, inr,
}
use llm_d_inference_payload.Prelude.Map
use llm_d_inference_payload.Prelude.Map.{Map, get-put, get-delete}
use llm_d_inference_payload.Adapters.{
  ConfigMap, NamespacedName, name_dec, AdaptersStore, map_adapters, forget_adapters, update_or_add,
  config_map_delete,
}

-- what a change at the adapters of a list leaves at an adapter
abbrev pub changed_at : Bool → Option Bytes → Option Bytes → Option Bytes
changed_at true new old = new
changed_at false new old = old

pub get-map_adapters :
    (base k : Bytes) (adapters : List Bytes) (m : Map Bytes Bytes)
    → Map.get bytes_dec k (map_adapters base adapters m)
      ≡ changed_at (contains k adapters) (some base) (Map.get bytes_dec k m)
unfolding map_adapters contains
get-map_adapters base k [] m = refl
get-map_adapters base k (a ∷ as') m =
    ground (
      arith,
      get-map_adapters base k as' (Map.put bytes_dec a base m),
      get-put bytes_dec a k base m,
    )

pub get-forget_adapters :
    (k : Bytes) (adapters : List Bytes) (m : Map Bytes Bytes)
    → Map.get bytes_dec k (forget_adapters adapters m)
      ≡ changed_at (contains k adapters) none (Map.get bytes_dec k m)
unfolding forget_adapters contains
get-forget_adapters k [] m = refl
get-forget_adapters k (a ∷ as') m =
    ground (arith, get-forget_adapters k as' (Map.delete bytes_dec a m), get-delete bytes_dec a k m)

changed_twice :
    (x y : Option Bytes) (a b : Bool)
    → changed_at (if a then false else b) none (changed_at a x y)
      ≡ (if a then x else if b then none else y)
changed_twice x y true b = refl
changed_twice x y false true = refl
changed_twice x y false false = refl

changed_once : (y : Option Bytes) (a : Bool) → changed_at a none y ≡ (if a then none else y)
changed_once y true = refl
changed_once y false = refl

module _ ⦃S : StringSet⦄ where
  -- the adapters that a store holds for a configmap
  unfoldable pub adapters_of : AdaptersStore → NamespacedName → S.Set
  adapters_of st name = elim (Map.get name_dec name st.configmap_adapters) [
    | none ↦ S.new
    | some known ↦ known
  ]

  -- After an update every adapter of the new set maps to the new base model, an adapter that the
  -- configmap no longer lists maps to nothing, and every other adapter maps to what it did.
  pub get-update_or_add :
      (name : NamespacedName) (base k : Bytes) (new : S.Set) (st : AdaptersStore)
      → Map.get bytes_dec k (update_or_add name base new st).lora_adapter_to_base_model ≡ (
          if S.has new k
          then some base
          else if S.has (adapters_of st name) k
          then none
          else Map.get bytes_dec k st.lora_adapter_to_base_model)
  unfolding update_or_add adapters_of
  get-update_or_add name base k new st =
      let known : S.Set = elim (Map.get name_dec name st.configmap_adapters) [
        | none ↦ S.new
        | some s ↦ s
      ] in
      let m = map_adapters base (S.unsorted_list new) st.lora_adapter_to_base_model in
      get-forget_adapters k (S.unsorted_list (S.difference known new)) m
      ∙ rw
          (
            S.contains-unsorted_list (S.difference known new) k,
            S.has-difference known new k,
            get-map_adapters base k (S.unsorted_list new) st.lora_adapter_to_base_model,
            S.contains-unsorted_list new k,
          )
          (changed_twice _ _ (S.has new k) (S.has known k))

  -- After a deletion the adapters of the configmap map to nothing, and every other adapter maps to
  -- what it did; so also if the store does not hold the configmap.
  pub get-config_map_delete :
      (c : ConfigMap) (k : Bytes) (st : AdaptersStore)
      → Map.get bytes_dec k (config_map_delete c st).lora_adapter_to_base_model ≡ (
          if S.has (adapters_of st c.namespaced_name) k
          then none
          else Map.get bytes_dec k st.lora_adapter_to_base_model)
  unfolding config_map_delete adapters_of
  get-config_map_delete c k st =
      elim (Option-cases (Map.get name_dec c.namespaced_name st.configmap_adapters)) [
        | inl e ↦ rw (e, config_map_delete, adapters_of, S.has-new k) refl
        | inr (known, e) ↦
            rw
              (
                e,
                config_map_delete,
                adapters_of,
                get-forget_adapters k (S.unsorted_list known) st.lora_adapter_to_base_model,
                S.contains-unsorted_list known k,
              )
              (changed_once _ (S.has known k))
      ]
