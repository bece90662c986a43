-- ===== src/ModelConfig/Watch/Converging.antt =====
-- pkg/framework/plugins/datalayer/modelconfigcollector/plugin.go: the data store after a change of
-- the file.
use llm_d_inference_payload.Prelude.{
  Bytes, bytes_dec, Float64, Bool, true, false, ◌||◌, List, [], ◌∷◌, ◌++◌, none, some, is_empty,
  All, ◌≡◌, refl, ◌∙◌, ◌⊎◌, inl, inr, if_pos, Bool-cases,
}
use llm_d_inference_payload.Prelude.Map
use llm_d_inference_payload.DataLayer.Attributes.{Attributes}
use llm_d_inference_payload.DataLayer.Datastore.{Datastore}
use llm_d_inference_payload.DataLayer.Datastore.Laws.{attributes_of, or_empty}
use llm_d_inference_payload.Errors.{Result, ok}
use llm_d_inference_payload.ModelConfig.{
  ModelConfiguration, ModelsConfig, read_models_file, sync_config, sync_models,
}
use llm_d_inference_payload.ModelConfig.Groups.{groups_of, entry_of}
use llm_d_inference_payload.ModelConfig.Sync.{last_entry, refreshed, sync_config-Listed}
use llm_d_inference_payload.ModelConfig.Watch.{
  FileOps, WatchEvent, stop_closed, context_done, events_closed, errors_closed, watcher_error,
  file_event, resync, on_watch_event, watch,
}

-- the event does not end the goroutine
abbrev pub GoesOn : {E : Type 0} → WatchEvent E → Type 0
GoesOn stop_closed = ⊥
GoesOn context_done = ⊥
GoesOn events_closed = ⊥
GoesOn errors_closed = ⊥
GoesOn watcher_error = Unit
GoesOn (file_event path ops read) = Unit

abbrev pub is_change : FileOps → Bool
is_change ops = ops.write || ops.create || ops.remove || ops.rename

module _ ⦃N : Float64⦄ {E : Type 0} (unmarshal : Bytes → Result (ModelsConfig N.F))
    (is_not_exist : E → Bool) (models_path : Bytes) where
  on_watch_event-GoesOn :
      (ev : WatchEvent E) (ds : Datastore N.F)
      → GoesOn ev
      → (on_watch_event unmarshal is_not_exist models_path ev ds).1 ≡ true
  unfolding on_watch_event
  on_watch_event-GoesOn stop_closed ds h = absurd h
  on_watch_event-GoesOn context_done ds h = absurd h
  on_watch_event-GoesOn events_closed ds h = absurd h
  on_watch_event-GoesOn errors_closed ds h = absurd h
  on_watch_event-GoesOn watcher_error ds h = refl
  on_watch_event-GoesOn (file_event none ops read) ds h = refl
  on_watch_event-GoesOn (file_event (some path) ops read) ds h = refl

  watch-append :
      (events : List (WatchEvent E)) (ev : WatchEvent E) (ds : Datastore N.F)
      → All GoesOn events
      → watch unmarshal is_not_exist models_path (events ++ (ev ∷ [])) ds
        ≡ (on_watch_event unmarshal is_not_exist models_path ev
            (watch unmarshal is_not_exist models_path events ds)).0
  unfolding watch
  watch-append [] ev ds h =
      elim (Bool-cases (on_watch_event unmarshal is_not_exist models_path ev ds).1) [
        | inl e ↦ rw (e, watch) refl
        | inr e ↦ rw (e, watch) refl
      ]
  watch-append (x ∷ events) ev ds (on, h) =
      let goes = on_watch_event-GoesOn x ds on in
      rw (goes, watch)
        (watch-append events ev (on_watch_event unmarshal is_not_exist models_path x ds).0 h)

  resynced :
      (content : Bytes) (cfg : ModelsConfig N.F) (ds : Datastore N.F)
      → is_empty content ≡ false
      → unmarshal content ≡ ok cfg
      → resync unmarshal is_not_exist models_path (inl content) ds ≡ sync_config cfg ds
  unfolding resync read_models_file sync_models
  resynced content cfg ds n u = rw (n, u, resync, sync_models) refl

  changed_file :
      (ops : FileOps) (content : Bytes) (cfg : ModelsConfig N.F) (ds : Datastore N.F)
      → is_change ops ≡ true
      → is_empty content ≡ false
      → unmarshal content ≡ ok cfg
      → (on_watch_event unmarshal is_not_exist models_path
          (file_event (some models_path) ops (inl content))
          ds).0
        ≡ sync_config cfg ds
  unfolding on_watch_event
  changed_file ops content cfg ds c n u =
      if_pos (bytes_dec models_path models_path) refl _ _ ∙ rw c (resynced content cfg ds n u)

  -- If nothing that the goroutine has received before ends it, then an event whose path is the path
  -- of the file itself, that is a write, a creation, a removal or a renaming, and after which the
  -- file reads as a content that is not empty and decodes, leaves exactly the models in the data
  -- store that the content lists in a valid entry, with that entry's prices and groups, and with
  -- their other attributes as they were before the event.
  pub watch-Listed :
      (events : List (WatchEvent E)) (ops : FileOps) (content : Bytes) (cfg : ModelsConfig N.F)
      (ds : Datastore N.F) (name : Bytes)
      → All GoesOn events
      → is_change ops ≡ true
      → is_empty content ≡ false
      → unmarshal content ≡ ok cfg
      → let before = watch unmarshal is_not_exist models_path events ds in
        let after =
          watch unmarshal is_not_exist models_path
            (events ++ (file_event (some models_path) ops (inl content) ∷ []))
            ds in
        ((last_entry name cfg.models ≡ none) × (attributes_of name after ≡ none))
        ⊎ ((e : ModelConfiguration N.F) × (last_entry name cfg.models ≡ some e)
            × ((m : Attributes N.F) × (attributes_of name after ≡ some m)
                × ((key : Bytes)
                    → Map.get bytes_dec key m
                      ≡ refreshed
                          (entry_of (groups_of name cfg.groups))
                          e
                          key
                          (Map.get bytes_dec key (or_empty (attributes_of name before))))))
  watch-Listed events ops content cfg ds name on c n u =
      let before = watch unmarshal is_not_exist models_path events ds in
      rw
        (watch-append events (file_event (some models_path) ops (inl content)) ds on
          ∙ changed_file ops content cfg before c n u)
        (sync_config-Listed name cfg before)
