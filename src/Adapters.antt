-- ===== src/Adapters.antt =====
-- pkg/framework/plugins/requesthandling/basemodelextractor: adapters_store.go, the store of LoRA
-- adapters and base models; configmap_reconciler.go; and `ProcessRequest` of the plugin that reads
-- the store. `unmarshal_list` is `yaml.Unmarshal` into a list of strings, with the text of its
-- error; the store's lock makes each operation one step; a counter does not overflow, as a cluster
-- holds no 2^63 configmaps.
pub mod Reconciler
pub mod Lookup
pub mod Counters
pub mod Restore
use mathlib.Core.HLevel.{×_discrete}
use llm_d_inference_payload.Prelude.{
  Bytes, bytes_dec, codes, trim_space, StringSet, ℤ, pos, negsuc, zero, suc, ◌==◌, Bool, false,
  List, [], ◌∷◌, ◌++◌, Option, none, some, is_empty, if◌then◌else◌, ◌≡◌, ◌⊎◌, inl, inr,
}
use llm_d_inference_payload.Prelude.Map
use llm_d_inference_payload.Prelude.Map.{Map}
use llm_d_inference_payload.Errors.{GoError, plain, error_text}

abbrev pub increment : ℤ → ℤ
increment (pos n) = pos (suc n)
increment (negsuc zero) = pos 0
increment (negsuc (suc n)) = negsuc n

abbrev pub decrement : ℤ → ℤ
decrement (pos zero) = negsuc 0
decrement (pos (suc n)) = pos n
decrement (negsuc n) = negsuc (suc n)

abbrev pub is_one : ℤ → Bool
is_one (pos n) = n == 1
is_one (negsuc n) = false

-- a namespace and a name
abbrev pub NamespacedName : Type 0
NamespacedName = Bytes × Bytes

unfoldable pub name_dec : Discrete NamespacedName
unfolding bytes_dec
name_dec = ×_discrete bytes_dec bytes_dec

-- `corev1.ConfigMap`, as far as it is read
pub record ConfigMap : Type 0 where
  pub namespaced_name : NamespacedName
  pub labels : Map Bytes Bytes
  pub data_section : Map Bytes Bytes
  pub marked_for_deletion : Bool

pub record AdaptersStore ⦃S : StringSet⦄ : Type 0 where
  pub lora_adapter_to_base_model : Map Bytes Bytes
  pub configmap_adapters : Map NamespacedName S.Set
  pub base_models : Map Bytes ℤ

module _ ⦃S : StringSet⦄ where
  unfoldable pub new_adapters_store : AdaptersStore
  new_adapters_store = record {
    lora_adapter_to_base_model = [];
    configmap_adapters = [];
    base_models = [];
  }

unfoldable pub parse_base_model_from_config_map : ConfigMap → GoError ⊎ Bytes
parse_base_model_from_config_map c = elim (Map.get bytes_dec (codes "baseModel") c.data_section) [
  | none ↦ inl (plain (codes "missing or empty baseModel in configmap"))
  | some raw ↦
      if is_empty (trim_space raw)
      then inl (plain (codes "missing or empty baseModel in configmap"))
      else inr (trim_space raw)
]

module _ ⦃S : StringSet⦄ (unmarshal_list : Bytes → Bytes ⊎ List Bytes) where
  -- the loop over the list of adapters
  unfoldable pub insert_adapters : List Bytes → S.Set → S.Set
  insert_adapters [] s = s
  insert_adapters (a ∷ as') s =
      insert_adapters as' (if is_empty (trim_space a) then s else S.insert (trim_space a) s)

  unfoldable pub parse_adapters : ConfigMap → GoError ⊎ S.Set
  unfolding insert_adapters
  parse_adapters c = elim (Map.get bytes_dec (codes "adapters") c.data_section) [
    | none ↦ inr S.new
    | some raw ↦ if is_empty (trim_space raw) then inr S.new else (elim (unmarshal_list raw) [
      | inl text ↦ inl (plain (codes "failed to parse adapters: " ++ text))
      | inr names ↦ inr (insert_adapters names S.new)
    ])
  ]

  unfoldable pub parse_config_map : ConfigMap → GoError ⊎ Bytes × S.Set
  parse_config_map c = elim (parse_base_model_from_config_map c) [
    | inl _ ↦ inl (
        plain (
          codes "failed to parse configmap "
          ++ (c.namespaced_name.0 ++ (codes "/" ++ c.namespaced_name.1))))
    | inr base ↦ elim (parse_adapters c) [ inl e ↦ inl e | inr adapters ↦ inr (base, adapters) ]
  ]

-- the loops over adapters, in the order in which a set gives them
unfoldable pub map_adapters : Bytes → List Bytes → Map Bytes Bytes → Map Bytes Bytes
map_adapters base [] m = m
map_adapters base (a ∷ as') m = map_adapters base as' (Map.put bytes_dec a base m)

unfoldable pub forget_adapters : List Bytes → Map Bytes Bytes → Map Bytes Bytes
forget_adapters [] m = m
forget_adapters (a ∷ as') m = forget_adapters as' (Map.delete bytes_dec a m)

unfoldable pub count_base : Bytes → Map Bytes ℤ → Map Bytes ℤ
count_base base m = elim (Map.get bytes_dec base m) [
  | some count ↦ Map.put bytes_dec base (increment count) m
  | none ↦ Map.put bytes_dec base (pos 1) m
]

-- the last block of `configMapDelete`; a read of a missing counter gives 0
unfoldable pub uncount_base : Bytes → Map Bytes ℤ → Map Bytes ℤ
uncount_base base m = elim (Map.get bytes_dec base m) [
  | none ↦ Map.put bytes_dec base (decrement (pos 0)) m
  | some count ↦
      if is_one count
      then Map.delete bytes_dec base m
      else Map.put bytes_dec base (decrement count) m
]

module _ ⦃S : StringSet⦄ where
  -- What the source does under the lock, once the configmap is parsed.
  unfoldable pub update_or_add : NamespacedName → Bytes → S.Set → AdaptersStore → AdaptersStore
  unfolding map_adapters forget_adapters count_base
  update_or_add name base new_adapters st =
      let known = Map.get name_dec name st.configmap_adapters in
      let existing : S.Set = elim known [ none ↦ S.new | some previous ↦ previous ] in
      record {
        lora_adapter_to_base_model =
            forget_adapters (S.unsorted_list (S.difference existing new_adapters))
              (map_adapters base (S.unsorted_list new_adapters) st.lora_adapter_to_base_model);
        configmap_adapters = Map.put name_dec name new_adapters st.configmap_adapters;
        base_models = elim known [
          | none ↦ count_base base st.base_models
          | some _ ↦ st.base_models
        ];
      }

  unfoldable pub config_map_update_or_add_if_not_exist :
      (Bytes → Bytes ⊎ List Bytes) → ConfigMap → AdaptersStore → AdaptersStore × Option GoError
  config_map_update_or_add_if_not_exist unmarshal_list c st =
      elim (parse_config_map unmarshal_list c) [
        | inl e ↦ (st, some (plain (codes "failed to parse configmap - " ++ error_text e)))
        | inr (base, adapters) ↦ (update_or_add c.namespaced_name base adapters st, none)
      ]

  unfoldable pub config_map_delete : ConfigMap → AdaptersStore → AdaptersStore
  unfolding forget_adapters uncount_base
  config_map_delete c st = elim (Map.get name_dec c.namespaced_name st.configmap_adapters) [
    | none ↦ st
    | some adapters ↦ record {
      lora_adapter_to_base_model =
          forget_adapters (S.unsorted_list adapters) st.lora_adapter_to_base_model;
      configmap_adapters = Map.delete name_dec c.namespaced_name st.configmap_adapters;
      base_models = elim (parse_base_model_from_config_map c) [
        | inl _ ↦ st.base_models
        | inr base ↦ uncount_base base st.base_models
      ];
    }
  ]

  unfoldable pub get_base_model : AdaptersStore → Bytes → Bytes
  get_base_model st model_name =
      let name = trim_space model_name in
      elim (Map.get bytes_dec name st.lora_adapter_to_base_model) [
        | some base ↦ base
        | none ↦ elim (Map.get bytes_dec name st.base_models) [ some _ ↦ name | none ↦ [] ]
      ]
