-- ===== src/ModelConfig/Sync.antt =====
-- pkg/framework/plugins/datalayer/modelconfigcollector/plugin.go, `syncModels`: what the data store
-- holds afterwards.
use llm_d_inference_payload.Prelude.{
  Bytes, bytes_dec, Float64, true, false, List, [], ◌∷◌, Option, none, some, if◌then◌else◌, ◌≡◌,
  refl, ap, ◌∙◌, ◌⊎◌, inl, inr, ite, if_pos, if_neg, arith, Bool-cases, Option-cases,
}
use llm_d_inference_payload.Prelude.Map
use llm_d_inference_payload.Prelude.Map.{Map, get-put, get-delete}
use llm_d_inference_payload.DataLayer.{Attribute, groups, Model}
use llm_d_inference_payload.DataLayer.Attributes.{Attributes, put_attribute, delete_attribute}
use llm_d_inference_payload.DataLayer.Datastore.{
  Datastore, update_model, delete_model, get_models, select_models,
}
use llm_d_inference_payload.DataLayer.Datastore.Laws.{
  attributes_of, or_empty, attributes_of-update_model, attributes_of-delete_model, has_name,
  has_name-select_models,
}
use llm_d_inference_payload.ModelConfig.{
  ModelConfiguration, ModelsConfig, token_prices_attribute_key, groups_attribute_key, add_groups,
  to_token_prices, refresh, is_valid, register_models, remove_models, sync_config,
}
use llm_d_inference_payload.ModelConfig.Groups.{groups_of, entry_of, get-add_groups}

-- the first, if it is there
abbrev pub later : {A : Type 0} → Option A → Option A → Option A
later none b = b
later (some a) b = some a

module _ ⦃N : Float64⦄ where
  -- the last valid entry of a name
  abbrev pub last_entry : Bytes → List (ModelConfiguration N.F) → Option (ModelConfiguration N.F)
  last_entry name [] = none
  last_entry name (m ∷ ms) =
      later (last_entry name ms)
        (if is_valid m then ite (bytes_dec m.name name) (some m) none else none)

  abbrev pub groups_attribute : Option (List Bytes) → Option (Attribute N.F)
  groups_attribute none = none
  groups_attribute (some gs) = some (groups gs)

  -- the attribute of an entry's model under a key, where the old one was `old`
  abbrev pub refreshed :
      Option (List Bytes)
      → ModelConfiguration N.F
      → Bytes
      → Option (Attribute N.F)
      → Option (Attribute N.F)
  refreshed gs m key old =
      ite (bytes_dec groups_attribute_key key) (groups_attribute gs)
        (ite (bytes_dec token_prices_attribute_key key) (some (to_token_prices m.pricing)) old)

  get-refresh :
      (membership : Map Bytes (List Bytes)) (m : ModelConfiguration N.F) (key : Bytes)
      (attributes : Attributes N.F)
      → Map.get bytes_dec key (refresh membership m attributes)
        ≡ refreshed (Map.get bytes_dec m.name membership) m key (Map.get bytes_dec key attributes)
  unfolding refresh put_attribute delete_attribute
  get-refresh membership m key attributes =
      elim (Option-cases (Map.get bytes_dec m.name membership)) [
        | inl e ↦
            rw (e, refresh)
              (get-delete bytes_dec groups_attribute_key key _
                ∙ ap (λ z. ite (bytes_dec groups_attribute_key key) none z)
                    (get-put bytes_dec token_prices_attribute_key key _ attributes))
        | inr (gs, e) ↦
            rw (e, refresh)
              (get-put bytes_dec groups_attribute_key key _ _
                ∙ ap (λ z. ite (bytes_dec groups_attribute_key key) (some (groups gs)) z)
                    (get-put bytes_dec token_prices_attribute_key key _ attributes))
      ]

  -- What the loop over the models does to a name, by the last valid entry of the name: nothing
  -- without one, and otherwise the name is desired and its model has that entry's attributes.
  abbrev Registered :
      Bytes
      → Option (List Bytes)
      → Option (ModelConfiguration N.F)
      → Map Bytes (Unit {0}) × Datastore N.F
      → Map Bytes (Unit {0}) × Datastore N.F
      → Type 0
  Registered name gs none (desired, ds) (desired', ds') =
      (Map.get bytes_dec name desired' ≡ Map.get bytes_dec name desired)
      × (attributes_of name ds' ≡ attributes_of name ds)
  Registered name gs (some e) (desired, ds) (desired', ds') =
      (Map.get bytes_dec name desired' ≡ some tt)
      × ((m : Attributes N.F) × (attributes_of name ds' ≡ some m)
          × ((key : Bytes)
              → Map.get bytes_dec key m
                ≡ refreshed gs e key (Map.get bytes_dec key (or_empty (attributes_of name ds)))))

  refreshed-refreshed :
      (gs : Option (List Bytes)) (e m : ModelConfiguration N.F) (key : Bytes)
      (old : Option (Attribute N.F))
      → refreshed gs e key (refreshed gs m key old) ≡ refreshed gs e key old
  refreshed-refreshed gs e m key old = ground arith

  -- a round of the loop that registers the name itself, before rounds with the last entry `o`
  register_same :
      (name : Bytes) (membership : Map Bytes (List Bytes)) (m : ModelConfiguration N.F)
      (o : Option (ModelConfiguration N.F)) (desired : Map Bytes (Unit {0})) (ds : Datastore N.F)
      (after : Map Bytes (Unit {0}) × Datastore N.F)
      → m.name ≡ name
      → Registered name
          (Map.get bytes_dec name membership)
          o
          (Map.put bytes_dec m.name tt desired, update_model m.name (refresh membership m) ds)
          after
      → Registered name (Map.get bytes_dec name membership) (later o (some m)) (desired, ds) after
  register_same name membership m none desired ds (desired', ds') p (h, k) = (
    h ∙ get-put bytes_dec m.name name tt desired ∙ if_pos (bytes_dec m.name name) p _ _,
    (
      refresh membership m (or_empty (attributes_of m.name ds)),
      k
          ∙ attributes_of-update_model m.name name (refresh membership m) ds
          ∙ if_pos (bytes_dec m.name name) p _ _,
      λ key. get-refresh membership m key (or_empty (attributes_of m.name ds)) ∙ rw p refl,
    ),
  )
  register_same name membership m (some e) desired ds (desired', ds') p (h, (a, k, same)) = (
    h,
    (
      a,
      k,
      λ key.
          same key
          ∙ ap
              (λ z.
                refreshed (Map.get bytes_dec name membership) e key
                  (Map.get bytes_dec key (or_empty z)))
              (attributes_of-update_model m.name name (refresh membership m) ds
                ∙ if_pos (bytes_dec m.name name) p _ _)
          ∙ ap (refreshed (Map.get bytes_dec name membership) e key)
              (get-refresh membership m key (or_empty (attributes_of m.name ds)) ∙ rw p refl)
          ∙ refreshed-refreshed (Map.get bytes_dec name membership) e m key
              (Map.get bytes_dec key (or_empty (attributes_of name ds))),
    ),
  )

  -- a round that changes nothing for the name
  register_other :
      (name : Bytes) (gs : Option (List Bytes)) (o : Option (ModelConfiguration N.F))
      (before before' after : Map Bytes (Unit {0}) × Datastore N.F)
      → Map.get bytes_dec name before'.0 ≡ Map.get bytes_dec name before.0
      → attributes_of name before'.1 ≡ attributes_of name before.1
      → Registered name gs o before' after
      → Registered name gs (later o none) before after
  register_other name gs none before before' after p q (h, k) = (h ∙ p, k ∙ q)
  register_other name gs (some e) before before' after p q (h, (a, k, same)) = (
    h,
    (a, k, λ key. same key ∙ ap (λ z. refreshed gs e key (Map.get bytes_dec key (or_empty z))) q),
  )

  register_models-Registered :
      (name : Bytes) (membership : Map Bytes (List Bytes)) (ms : List (ModelConfiguration N.F))
      (desired : Map Bytes (Unit {0})) (ds : Datastore N.F)
      → Registered name
          (Map.get bytes_dec name membership)
          (last_entry name ms)
          (desired, ds)
          (register_models membership ms desired ds)
  unfolding register_models
  register_models-Registered name membership [] desired ds = (refl, refl)
  register_models-Registered name membership (m ∷ ms) desired ds = elim (Bool-cases (is_valid m)) [
    | inr v ↦
        rw (v, register_models)
          (register_other name (Map.get bytes_dec name membership) (last_entry name ms)
            (desired, ds) (desired, ds) (register_models membership ms desired ds) refl refl
            (register_models-Registered name membership ms desired ds))
    | inl v ↦
        let rest =
          register_models-Registered name membership ms (Map.put bytes_dec m.name tt desired)
            (update_model m.name (refresh membership m) ds) in
        elim (bytes_dec m.name name) [
          | yes p ↦
              rw (v, register_models, if_pos (bytes_dec m.name name) p (some m) none)
                (register_same name membership m (last_entry name ms) desired ds _ p rest)
          | no p ↦
              rw (v, register_models, if_neg (bytes_dec m.name name) p (some m) none)
                (register_other name (Map.get bytes_dec name membership) (last_entry name ms)
                  (desired, ds)
                  (
                    Map.put bytes_dec m.name tt desired,
                    update_model m.name (refresh membership m) ds,
                  )
                  _
                  (get-put bytes_dec m.name name tt desired ∙ if_neg (bytes_dec m.name name) p _ _)
                  (attributes_of-update_model m.name name (refresh membership m) ds
                    ∙ if_neg (bytes_dec m.name name) p _ _)
                  rest)
        ]
  ]

  -- the loop that removes models, for a name that is desired and for one that is not
  remove_models_desired :
      (name : Bytes) (desired : Map Bytes (Unit {0})) (ms : List (Model N.F)) (ds : Datastore N.F)
      → Map.get bytes_dec name desired ≡ some tt
      → attributes_of name (remove_models desired ms ds) ≡ attributes_of name ds
  unfolding remove_models
  remove_models_desired name desired [] ds h = refl
  remove_models_desired name desired (m ∷ ms) ds h =
      elim (Option-cases (Map.get bytes_dec m.name desired)) [
        | inr (_, e) ↦ rw (e, remove_models) (remove_models_desired name desired ms ds h)
        | inl e ↦
            rw (e, remove_models)
              (remove_models_desired name desired ms (delete_model m.name ds) h
                ∙ attributes_of-delete_model m.name name ds
                ∙ if_neg (bytes_dec m.name name)
                    (λ p.
                      let miss : Map.get bytes_dec name desired ≡ none = rw (← p) e in
                      absurd (ground arith))
                    _ _)
      ]

  remove_models_others :
      (name : Bytes) (desired : Map Bytes (Unit {0})) (ms : List (Model N.F)) (ds : Datastore N.F)
      → Map.get bytes_dec name desired ≡ none
      → (has_name name ms ≡ false → attributes_of name ds ≡ none)
      → attributes_of name (remove_models desired ms ds) ≡ none
  unfolding remove_models
  remove_models_others name desired [] ds h k = k refl
  remove_models_others name desired (m ∷ ms) ds h k =
      elim (Option-cases (Map.get bytes_dec m.name desired)) [
        | inr (_, e) ↦
            rw (e, remove_models)
              (remove_models_others name desired ms ds h (λ q. k (
                if_neg (bytes_dec m.name name)
                  (λ p.
                    let found : Map.get bytes_dec name desired ≡ some tt = rw (← p) e in
                    absurd (ground arith))
                  _ _
                ∙ q)))
        | inl e ↦
            rw (e, remove_models)
              (remove_models_others name desired ms (delete_model m.name ds) h (λ q.
                attributes_of-delete_model m.name name ds ∙ elim (bytes_dec m.name name) [
                  | yes p ↦ if_pos (bytes_dec m.name name) p _ _
                  | no p ↦
                      if_neg (bytes_dec m.name name) p _ _
                      ∙ k (if_neg (bytes_dec m.name name) p _ _ ∙ q)
                ]))
      ]

  get_empty : (name : Bytes) → Map.get {V = Unit {0}} bytes_dec name [] ≡ none
  unfolding Map.get
  get_empty name = refl

  -- the loop that removes models, after the loop that registered them
  Registered-remove_models :
      (name : Bytes) (gs : Option (List Bytes)) (o : Option (ModelConfiguration N.F))
      (ds : Datastore N.F) (after : Map Bytes (Unit {0}) × Datastore N.F)
      → Registered name gs o ([], ds) after
      → ((o ≡ none)
          × (attributes_of name (remove_models after.0 (get_models (λ m. true) after.1) after.1)
              ≡ none))
        ⊎ ((e : ModelConfiguration N.F) × (o ≡ some e)
            × ((m : Attributes N.F) × (attributes_of name
                    (remove_models after.0 (get_models (λ m. true) after.1) after.1)
                  ≡ some m)
                × ((key : Bytes)
                    → Map.get bytes_dec key m
                      ≡ refreshed gs e key
                          (Map.get bytes_dec key (or_empty (attributes_of name ds))))))
  unfolding get_models
  Registered-remove_models name gs none ds (desired, ds') (h, k) = inl (
    refl,
    remove_models_others name desired (select_models (λ m. true) ds'.models) ds'
        (h ∙ get_empty name) (has_name-select_models name ds'.models),
  )
  Registered-remove_models name gs (some e) ds (desired, ds') (h, (m, k, same)) =
      inr (e, refl, (m, remove_models_desired name desired _ ds' h ∙ k, same))

  -- After a configuration is brought into the data store, the store holds exactly the models that
  -- it lists in a valid entry: one with a name and without a negative price. Such a model has the
  -- prices of its last valid entry, each divided by a million; its groups are the names of the
  -- valid groups that list it, and without one it has no such attribute, also if it had one; and
  -- its other attributes are what they were.
  pub sync_config-Listed :
      (name : Bytes) (cfg : ModelsConfig N.F) (ds : Datastore N.F)
      → ((last_entry name cfg.models ≡ none) × (attributes_of name (sync_config cfg ds) ≡ none))
        ⊎ ((e : ModelConfiguration N.F) × (last_entry name cfg.models ≡ some e)
            × ((m : Attributes N.F) × (attributes_of name (sync_config cfg ds) ≡ some m)
                × ((key : Bytes)
                    → Map.get bytes_dec key m
                      ≡ refreshed
                          (entry_of (groups_of name cfg.groups))
                          e
                          key
                          (Map.get bytes_dec key (or_empty (attributes_of name ds))))))
  unfolding sync_config
  sync_config-Listed name cfg ds = rw (← get-add_groups name cfg.groups) (
      Registered-remove_models name (Map.get bytes_dec name (add_groups cfg.groups []))
        (last_entry name cfg.models) ds
        (register_models (add_groups cfg.groups []) cfg.models [] ds)
        (register_models-Registered name (add_groups cfg.groups []) cfg.models [] ds))
