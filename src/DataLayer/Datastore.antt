-- ===== src/DataLayer/Datastore.antt =====
-- pkg/datastore/inmemory/datastore.go. The lock makes each operation one step. A model is shared: a
-- change of its attributes is a change of the store, as long as the store holds the model.
pub mod Laws
use llm_d_inference_payload.Prelude.{
  Bytes, bytes_dec, Bool, List, [], ◌∷◌, Option, none, some, if◌then◌else◌,
}
use llm_d_inference_payload.Prelude.Map
use llm_d_inference_payload.Prelude.Map.{Map}
use llm_d_inference_payload.DataLayer.{Attribute, Model}
use llm_d_inference_payload.DataLayer.Attributes.{Attributes}

pub record Datastore (F : Type 0) : Type 0 where
  pub models : Map Bytes (Map Bytes (Attribute F))

module _ {F : Type 0} where
  -- `NewDatastore`
  abbrev pub new_datastore : Datastore F
  new_datastore = record { models = [] }

  unfoldable pub get_or_create_model : Bytes → Datastore F → Model F × Datastore F
  get_or_create_model name ds = elim (Map.get bytes_dec name ds.models) [
    | some m ↦ (record { name = name; attributes = m }, ds)
    | none ↦ (
      record { name = name; attributes = [] },
      record { models = Map.put bytes_dec name [] ds.models },
    )
  ]

  -- `GetOrCreateModel(name)`, and a change of the attributes of that model
  unfoldable pub update_model : Bytes → (Attributes F → Attributes F) → Datastore F → Datastore F
  unfolding get_or_create_model
  update_model name change ds =
      let (m, ds') = get_or_create_model name ds in
      record { models = Map.put bytes_dec name (change m.attributes) ds'.models }

  unfoldable pub delete_model : Bytes → Datastore F → Datastore F
  delete_model name ds = record { models = Map.delete bytes_dec name ds.models }

  -- the loop of `GetModels`
  unfoldable pub select_models :
      (Model F → Bool) → Map Bytes (Map Bytes (Attribute F)) → List (Model F)
  select_models p [] = []
  select_models p ((name, m) ∷ ms) =
      let rest = select_models p ms in
      let model : Model F = record { name = name; attributes = m } in
      if p model then model ∷ rest else rest

  unfoldable pub get_models : (Model F → Bool) → Datastore F → List (Model F)
  unfolding select_models
  get_models p ds = select_models p ds.models
