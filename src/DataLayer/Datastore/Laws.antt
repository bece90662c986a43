-- ===== src/DataLayer/Datastore/Laws.antt =====
-- pkg/datastore/inmemory/datastore.go: what the store holds after an operation.
use llm_d_inference_payload.Prelude.{
  Bytes, bytes_dec, Bool, true, false, List, [], ◌∷◌, Option, none, some, ◌≡◌, refl, inl, inr, ite,
  arith, Option-cases,
}
use llm_d_inference_payload.Prelude.Map
use llm_d_inference_payload.Prelude.Map.{Map, get-put, get-delete}
use llm_d_inference_payload.DataLayer.{Model}
use llm_d_inference_payload.DataLayer.Attributes.{Attributes}
use llm_d_inference_payload.DataLayer.Datastore.{
  Datastore, get_or_create_model, update_model, delete_model, select_models,
}

module _ {F : Type 0} where
  -- the attributes of a model, if the store holds it
  abbrev pub attributes_of : Bytes → Datastore F → Option (Attributes F)
  attributes_of name ds = Map.get bytes_dec name ds.models

  abbrev pub or_empty : Option (Attributes F) → Attributes F
  or_empty none = []
  or_empty (some m) = m

  pub attributes_of-update_model :
      (name j : Bytes) (change : Attributes F → Attributes F) (ds : Datastore F)
      → attributes_of j (update_model name change ds)
        ≡ ite
            (bytes_dec name j)
            (some (change (or_empty (attributes_of name ds))))
            (attributes_of j ds)
  unfolding update_model get_or_create_model
  attributes_of-update_model name j change ds = elim (Option-cases (attributes_of name ds)) [
    | inl e ↦
        rw (e, update_model, get_or_create_model)
          (ground (
            arith,
            get-put bytes_dec name j (change []) (Map.put bytes_dec name [] ds.models),
            get-put {V = Attributes F} bytes_dec name j [] ds.models,
          ))
    | inr (m, e) ↦
        rw (e, update_model, get_or_create_model) (get-put bytes_dec name j (change m) ds.models)
  ]

  pub attributes_of-delete_model :
      (name j : Bytes) (ds : Datastore F)
      → attributes_of j (delete_model name ds) ≡ ite (bytes_dec name j) none (attributes_of j ds)
  unfolding delete_model
  attributes_of-delete_model name j ds = get-delete bytes_dec name j ds.models

  -- whether one of the models has the name
  abbrev pub has_name : Bytes → List (Model F) → Bool
  has_name name [] = false
  has_name name (m ∷ ms) = ite (bytes_dec m.name name) true (has_name name ms)

  -- a store that holds a model lists it
  pub has_name-select_models :
      (name : Bytes) (ms : Map Bytes (Attributes F))
      → has_name name (select_models (λ m. true) ms) ≡ false
      → Map.get bytes_dec name ms ≡ none
  unfolding select_models Map.get
  has_name-select_models name [] h = refl
  has_name-select_models name ((k, m) ∷ ms) h = ground (arith, has_name-select_models name ms)
