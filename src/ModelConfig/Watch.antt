-- ===== src/ModelConfig/Watch.antt =====
-- pkg/framework/plugins/datalayer/modelconfigcollector/plugin.go: the factory's checks, `Start` and
-- the goroutine that watches the file. What the goroutine receives next is an event; `read` is what
-- a reading of the file gives at that time, `E` its errors.
pub mod Converging
use llm_d_inference_payload.Prelude.{
  Bytes, bytes_dec, codes, Float64, Bool, true, false, ◌||◌, ◌&&◌, List, [], ◌∷◌, ◌++◌, Option,
  none, some, is_empty, if◌then◌else◌, ite, ◌⊎◌, inl, inr,
}
use llm_d_inference_payload.DataLayer.Datastore.{Datastore}
use llm_d_inference_payload.Errors.{GoError, Result, ok, err, panic, plain, error_text, ◌>>=◌}
use llm_d_inference_payload.ModelConfig.{ModelsConfig, read_models_file, sync_models}

-- the operations of an event of fsnotify
pub record FileOps : Type 0 where
  pub write : Bool
  pub create : Bool
  pub remove : Bool
  pub rename : Bool

-- What the goroutine's `select` receives. The path of an event is the absolute one, or an error.
pub data WatchEvent (E : Type 0) : Type 0 where
  stop_closed : WatchEvent E
  context_done : WatchEvent E
  events_closed : WatchEvent E
  errors_closed : WatchEvent E
  watcher_error : WatchEvent E
  file_event : Option Bytes → FileOps → Bytes ⊎ E → WatchEvent E

-- The checks of `DatasourceFactory`: `abs` is `filepath.Abs`, `is_dir` the mode that `os.Stat`
-- gives.
unfoldable pub datasource_path :
    (Bytes → Result Bytes) → (Bytes → Result Bool) → Result Bytes → Result Bytes
datasource_path abs is_dir models_path = models_path >>= λ path.
    if is_empty path then err (plain (codes "modelsPath is required")) else (elim (abs path) [
      | err e ↦ err (
          plain
            (codes "failed to resolve modelsPath \"" ++ (path ++ (codes "\": " ++ error_text e))))
      | panic ↦ panic
      | ok absolute ↦ is_dir absolute >>= λ dir.
          if dir
          then err (plain (codes "modelsPath must be a file, not a directory"))
          else ok absolute
    ])

module _ ⦃N : Float64⦄ {E : Type 0} (unmarshal : Bytes → Result (ModelsConfig N.F))
    (is_not_exist : E → Bool) (models_path : Bytes) where
  -- a change of the file: it is read and synced, and a failure is only logged
  unfoldable pub resync : Bytes ⊎ E → Datastore N.F → Datastore N.F
  unfolding read_models_file sync_models
  resync read ds = elim (read_models_file is_not_exist read false) [
    | inr e ↦ ds
    | inl content ↦ (sync_models unmarshal content ds).0
  ]

  -- One round of the goroutine: the data store, and whether the goroutine goes on
  unfoldable pub on_watch_event : WatchEvent E → Datastore N.F → Datastore N.F × Bool
  unfolding resync
  on_watch_event stop_closed ds = (ds, false)
  on_watch_event context_done ds = (ds, false)
  on_watch_event events_closed ds = (ds, false)
  on_watch_event errors_closed ds = (ds, false)
  on_watch_event watcher_error ds = (ds, true)
  on_watch_event (file_event none ops read) ds = (ds, true)
  on_watch_event (file_event (some path) ops read) ds = (
    ite (bytes_dec path models_path)
        (if ops.write || ops.create || ops.remove || ops.rename then resync read ds else ds) ds,
    true,
  )

  -- the goroutine on what it receives
  unfoldable pub watch : List (WatchEvent E) → Datastore N.F → Datastore N.F
  unfolding on_watch_event
  watch [] ds = ds
  watch (ev ∷ events) ds =
      let (ds', on) = on_watch_event ev ds in
      let rest = watch events ds' in if on then rest else ds'

  -- `Start` up to the launch of the goroutine; `watcher` is the outcome of making the watcher and
  -- of adding the directory to it
  unfoldable pub start_source :
      Bytes ⊎ E
      → (E → Bytes)
      → Result (Unit {0})
      → Datastore N.F
      → Datastore N.F × Result (Unit {0})
  unfolding read_models_file sync_models
  start_source read error_of watcher ds = elim (read_models_file is_not_exist read true) [
    | inr e ↦ (ds, err (plain (codes "failed to read models config: " ++ error_of e)))
    | inl content ↦
        let (ds', synced) = sync_models unmarshal content ds in (ds', synced >>= λ _. watcher)
  ]
