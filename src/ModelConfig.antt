-- ===== src/ModelConfig.antt =====
-- pkg/framework/plugins/datalayer/modelconfigcollector: the models that a configuration file lists
-- are brought into the data store; and pkg/framework/interface/datalayer/pricing. `unmarshal` is
-- the JSON decoder's.
pub mod Groups
pub mod Sync
pub mod Watch
use llm_d_inference_payload.Prelude.{
  Bytes, bytes_dec, codes, Float64, Bool, true, false, List, [], ◌∷◌, ◌++◌, Option, none, some,
  is_empty, if◌then◌else◌, ◌||◌, ◌&&◌, not, ◌⊎◌, inl, inr,
}
use llm_d_inference_payload.Prelude.Map
use llm_d_inference_payload.Prelude.Map.{Map}
use llm_d_inference_payload.DataLayer.{Attribute, groups, token_prices, Model}
use llm_d_inference_payload.DataLayer.Attributes.{Attributes, put_attribute, delete_attribute}
use llm_d_inference_payload.DataLayer.Datastore.{Datastore, update_model, delete_model, get_models}
use llm_d_inference_payload.Errors.{Result, ok, err, panic}

-- `ModelPriceShape`
pub record ModelPriceShape (F : Type 0) : Type 0 where
  pub input_per_million : F
  pub output_per_million : F

-- `ModelConfiguration`
pub record ModelConfiguration (F : Type 0) : Type 0 where
  pub name : Bytes
  pub pricing : ModelPriceShape F

-- `ModelGroupConfig`
pub record ModelGroupConfig : Type 0 where
  pub name : Bytes
  pub models : List Bytes

-- `ModelsConfig`
pub record ModelsConfig (F : Type 0) : Type 0 where
  pub models : List (ModelConfiguration F)
  pub groups : List ModelGroupConfig

abbrev pub token_prices_attribute_key : Bytes
token_prices_attribute_key = codes "token_prices"

abbrev pub groups_attribute_key : Bytes
groups_attribute_key = codes "model_groups"

-- `readModelsFile`: `read` is the file's content or the error of its reading, `is_not_exist` the
-- test of the error. Nil content is empty.
unfoldable pub read_models_file : {E : Type 0} → (E → Bool) → Bytes ⊎ E → Bool → Bytes ⊎ E
read_models_file is_not_exist (inl content) fail_on_missing = inl content
read_models_file is_not_exist (inr e) fail_on_missing =
    if is_not_exist e && not fail_on_missing then inl [] else inr e

-- `membership[model]`, which is nil for a missing key
abbrev pub listed : Option (List Bytes) → List Bytes
listed none = []
listed (some gs) = gs

-- the loop over the models of a group
unfoldable pub add_members : Bytes → List Bytes → Map Bytes (List Bytes) → Map Bytes (List Bytes)
add_members group [] m = m
add_members group (model ∷ models) m = add_members group models (
    if is_empty model
    then m
    else Map.put bytes_dec model (listed (Map.get bytes_dec model m) ++ (group ∷ [])) m)

-- the loop over the groups
unfoldable pub add_groups : List ModelGroupConfig → Map Bytes (List Bytes) → Map Bytes (List Bytes)
unfolding add_members
add_groups [] m = m
add_groups (g ∷ gs) m =
    add_groups gs
      (if is_empty g.name || is_empty g.models then m else add_members g.name g.models m)

module _ ⦃N : Float64⦄ where
  -- 1e6
  abbrev pub million : N.F
  million = N.of_ℕ 1_000_000

  unfoldable pub to_token_prices : ModelPriceShape N.F → Attribute N.F
  to_token_prices s =
      token_prices (N.div s.input_per_million million) (N.div s.output_per_million million)

  -- the changes of a model's attributes in the loop over the models
  unfoldable pub refresh :
      Map Bytes (List Bytes) → ModelConfiguration N.F → Attributes N.F → Attributes N.F
  unfolding put_attribute delete_attribute to_token_prices
  refresh membership m attributes =
      let priced =
        put_attribute token_prices_attribute_key (some (to_token_prices m.pricing)) attributes in
      elim (Map.get bytes_dec m.name membership) [
        | some gs ↦ put_attribute groups_attribute_key (some (groups gs)) priced
        | none ↦ delete_attribute groups_attribute_key priced
      ]

  -- the entry has a name, and no negative price
  unfoldable pub is_valid : ModelConfiguration N.F → Bool
  is_valid m =
      if is_empty m.name
      then false
      else if N.lt m.pricing.input_per_million N.zero_f
          || N.lt m.pricing.output_per_million N.zero_f
      then false
      else true

  -- The loop over the models: the set of the desired names and the store. The set of the invalid
  -- names, which only chooses a log line, is left out.
  unfoldable pub register_models :
      Map Bytes (List Bytes)
      → List (ModelConfiguration N.F)
      → Map Bytes (Unit {0})
      → Datastore N.F
      → Map Bytes (Unit {0}) × Datastore N.F
  register_models membership [] desired ds = (desired, ds)
  register_models membership (m ∷ ms) desired ds = elim (is_valid m) [
    | true ↦
        register_models membership ms (Map.put bytes_dec m.name tt desired)
          (update_model m.name (refresh membership m) ds)
    | false ↦ register_models membership ms desired ds
  ]

  -- the loop that removes the models that are not desired
  unfoldable pub remove_models :
      Map Bytes (Unit {0}) → List (Model N.F) → Datastore N.F → Datastore N.F
  remove_models desired [] ds = ds
  remove_models desired (m ∷ ms) ds =
      remove_models desired ms
        (elim (Map.get bytes_dec m.name desired) [ some _ ↦ ds | none ↦ delete_model m.name ds ])

  -- `syncModels` on a decoded configuration
  unfoldable pub sync_config : ModelsConfig N.F → Datastore N.F → Datastore N.F
  unfolding register_models remove_models
  sync_config cfg ds =
      let (desired, ds') = register_models (add_groups cfg.groups []) cfg.models [] ds in
      remove_models desired (get_models (λ m. true) ds') ds'

  unfoldable pub sync_models :
      (Bytes → Result (ModelsConfig N.F))
      → Bytes
      → Datastore N.F
      → Datastore N.F × Result (Unit {0})
  unfolding sync_config
  sync_models unmarshal content ds =
      if is_empty content
      then (sync_config (record { models = []; groups = [] }) ds, ok tt)
      else (elim (unmarshal content) [
        | ok cfg ↦ (sync_config cfg ds, ok tt)
        | err e ↦ (ds, err e)
        | panic ↦ (ds, panic)
      ])
