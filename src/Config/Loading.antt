-- ===== src/Config/Loading.antt =====
-- pkg/config/loader/configloader.go: `LoadConfiguration`, with the sources of the data layer and
-- the model selectors. `decode` is the decoder of the configuration's text.
pub mod Laws
use llm_d_inference_payload.Prelude.{
  Bytes, bytes_dec, codes, StringSet, Float64, ℤ, Bool, true, false, List, [], ◌∷◌, ◌++◌, Option,
  none, some, is_empty, if◌then◌else◌,
}
use llm_d_inference_payload.Prelude.Map
use llm_d_inference_payload.Prelude.Map.{Map}
use llm_d_inference_payload.Errors.{GoError, Result, ok, err, panic, plain, error_text, ◌>>=◌}
use llm_d_inference_payload.Framework.{
  Profile, ProfilePicker, RequestProcessor, ResponseProcessor, Picker,
}
use llm_d_inference_payload.Selector.{Pipeline}
use llm_d_inference_payload.Selector.Register.{Facets, PluginObject, add_plugins}
use llm_d_inference_payload.Config.{Instance, build_pre_processors, build_post_processors}
use llm_d_inference_payload.Config.Instances.{
  PluginSpec, DatalayerConfig, PayloadProcessorConfig, load_default_config,
  apply_raw_config_defaults, instantiate_plugins, apply_plugin_defaults,
}
use llm_d_inference_payload.Config.Profiles.{BuiltProfile, no_plugin, build_profiles}

-- a call of `RegisterCollector`, `RegisterExtractor` or `RegisterDatasource`, with the plugin's
-- name
pub data SourceCall : Type 0 where
  collector : Bytes → ℤ → SourceCall
  extractor : Bytes → SourceCall
  data_source : Bytes → SourceCall

-- a model selector's pipeline, with the typed name of its picker
abbrev pub Pipelines : ⦃S : StringSet⦄ ⦃N : Float64⦄ → Type 0 → Type 0
Pipelines W = Map Bytes (Pipeline W × Bytes)

-- `Config`
pub record Configuration ⦃S : StringSet⦄ ⦃N : Float64⦄ (W : Type 0) : Type 0 where
  -- `none` is a nil profile picker
  pub profile_picker : Option (ProfilePicker W)
  pub profiles : Map Bytes (BuiltProfile W)
  pub pre_processors : List (RequestProcessor W)
  pub post_processors : List (ResponseProcessor W)
  pub response_headers_post_processors : List (ResponseProcessor W)

-- `loadRawConfiguration`
unfoldable pub load_raw_configuration :
    {F : Type 0}
    → (Bytes → Result (PayloadProcessorConfig F))
    → Bytes
    → Result (PayloadProcessorConfig F)
load_raw_configuration decode bytes =
    if is_empty bytes
    then ok (apply_raw_config_defaults load_default_config)
    else (elim (decode bytes) [
      | ok cfg ↦ ok (apply_raw_config_defaults cfg)
      | err e ↦ err (plain (codes "failed to decode configuration JSON/YAML: " ++ error_text e))
      | panic ↦ panic
    ])

-- the later calls, if the result of the former is not an error
abbrev pub and_then :
    List SourceCall × Result (Unit {0})
    → List SourceCall × Result (Unit {0})
    → List SourceCall × Result (Unit {0})
and_then (calls, ok u) (calls', result) = (calls ++ calls', result)
and_then (calls, err e) later = (calls, err e)
and_then (calls, panic) later = (calls, panic)

module _ ⦃S : StringSet⦄ ⦃N : Float64⦄ {W : Type 0} where
  -- what an assertion finds in a plugin for the data layer
  unfoldable pub as_collector : Bytes → Instance W → Option SourceCall
  as_collector ref p = elim p.collector_frequency [ none ↦ none | some f ↦ some (collector ref f) ]

  unfoldable pub as_extractor : Bytes → Instance W → Option SourceCall
  as_extractor ref p = if p.is_extractor then some (extractor ref) else none

  unfoldable pub as_data_source : Bytes → Instance W → Option SourceCall
  as_data_source ref p = if p.is_data_source then some (data_source ref) else none

  -- one of the three loops: the calls that are made, also before an error; `kind` ends its text
  unfoldable pub register_sources :
      (Bytes → Option (Instance W))
      → (Bytes → Instance W → Option SourceCall)
      → Bytes
      → List Bytes
      → List SourceCall × Result (Unit {0})
  register_sources plugin as_source kind [] = ([], ok tt)
  register_sources plugin as_source kind (ref ∷ refs) = elim (plugin ref) [
    | none ↦ ([], err (no_plugin ref))
    | some p ↦ elim (as_source ref p) [
      | none ↦ ([], err (plain (codes "plugin \"" ++ (ref ++ (codes "\" is not " ++ kind)))))
      | some r ↦
          let (calls, result) = register_sources plugin as_source kind refs in (r ∷ calls, result)
    ]
  ]

  unfoldable pub build_datalayer_sources :
      Option DatalayerConfig → (Bytes → Option (Instance W)) → List SourceCall × Result (Unit {0})
  unfolding register_sources
  build_datalayer_sources none plugin = ([], ok tt)
  build_datalayer_sources (some cfg) plugin =
      and_then (register_sources plugin as_collector (codes "a Collector") cfg.collectors) (
        and_then (register_sources plugin as_extractor (codes "an Extractor") cfg.extractors)
          (register_sources plugin as_data_source (codes "a DataSource") cfg.datasources))

  abbrev pub pipeline_or_empty : Option (Pipeline W × Bytes) → Pipeline W × Bytes
  pipeline_or_empty none = (record { filters = []; scorers = []; picker = none }, [])
  pipeline_or_empty (some p) = p

  abbrev pub facets_of : PluginObject W → Facets W
  facets_of (PluginObject.weighted s f) = f
  facets_of (PluginObject.unweighted f) = f
  facets_of (PluginObject.other f) = f

  -- the typed name of the picker among the plugins
  unfoldable pub picker_name : List (PluginObject W) → Bytes
  picker_name [] = []
  picker_name (o ∷ os) = elim (facets_of o).picker [
    | some _ ↦ (facets_of o).typed_name
    | none ↦ picker_name os
  ]

module _ ⦃S : StringSet⦄ ⦃N : Float64⦄ {W : Type 0} (max_score : Bytes × Picker W) where
  -- The inner loop, over a profile's request plugins that are model selectors. The picker of a
  -- pipeline that has none is `max_score`, which comes with its typed name as text.
  unfoldable pub fill_selectors :
      List Bytes → List (PluginObject W) → Pipelines W → Result (Pipelines W)
  unfolding picker_name
  fill_selectors [] plugins pipelines = ok pipelines
  fill_selectors (name ∷ names) plugins pipelines =
      let (p, picker) = pipeline_or_empty (Map.get bytes_dec name pipelines) in
      let (p', failed) = add_plugins picker p plugins in
      elim failed [
        | some e ↦ err (
            plain (
              codes "failed to add plugins to model-selector \""
              ++ (name ++ (codes "\": " ++ error_text e))))
        | none ↦ fill_selectors names plugins (
            Map.put bytes_dec name
              (elim p'.picker [
                | some _ ↦ (p', elim p.picker [ some _ ↦ picker | none ↦ picker_name plugins ])
                | none ↦ (record p' { picker = some max_score.1 }, max_score.0)
              ])
              pipelines)
      ]

  -- `buildModelSelector`
  unfoldable pub build_model_selector :
      Map Bytes (BuiltProfile W) → Pipelines W → Result (Pipelines W)
  unfolding fill_selectors
  build_model_selector [] pipelines = ok pipelines
  build_model_selector ((name, b) ∷ profiles) pipelines =
      fill_selectors b.model_selectors b.model_selector_plugins pipelines
      >>= build_model_selector profiles

-- the check of the profiles against the body post-processors, which sets their flags
unfoldable pub force_buffering :
    ⦃S : StringSet⦄ ⦃N : Float64⦄ {W : Type 0}
    → Map Bytes (BuiltProfile W)
    → Result (Map Bytes (BuiltProfile W))
force_buffering [] = ok []
force_buffering ((name, b) ∷ profiles) =
    let rest = force_buffering profiles in
    if is_empty b.profile.response_chunk_processors
    then (rest >>= λ others. ok (
        (name, record b { profile = record (b.profile) { needs_response_buffering = true } })
        ∷ others))
    else err (
        plain (
          codes "profile "
          ++ (name
              ++ (codes " is using ResponseChunkProcessor plugins while post processor always "
                  ++ codes "require full body. the framework must use one type exclusively"))))

-- What a load leaves: the configuration, the pipelines of the model selectors, and the calls of the
-- data layer's processor.
pub record Loaded ⦃S : StringSet⦄ ⦃N : Float64⦄ (W : Type 0) : Type 0 where
  pub configuration : Configuration W
  pub pipelines : Pipelines W
  pub registrations : List SourceCall

module _ ⦃S : StringSet⦄ ⦃N : Float64⦄ {W : Type 0} where
  -- the assertion of the plugin under a name to a profile picker; a failure is only logged
  unfoldable pub profile_picker_of : Option (Instance W) → Option (ProfilePicker W)
  profile_picker_of none = none
  profile_picker_of (some p) = p.profile_picker

  unfoldable pub guard_buffering :
      List (ResponseProcessor W) → Map Bytes (BuiltProfile W) → Result (Map Bytes (BuiltProfile W))
  unfolding force_buffering
  guard_buffering [] profiles = ok profiles
  guard_buffering (p ∷ ps) profiles = force_buffering profiles

  -- `LoadConfiguration` from the handle's plugins and the name of the profile picker on
  unfoldable pub build_configuration :
      Bytes × Picker W
      → PayloadProcessorConfig N.F
      → Bytes
      → Map Bytes (Instance W)
      → Result (Loaded W)
  build_configuration max_score cfg picker handle =
      let plugin : Bytes → Option (Instance W) = λ ref. Map.get bytes_dec ref handle in
      build_profiles plugin cfg.profiles >>= λ built.
      build_pre_processors plugin cfg.pre_processing >>= λ pre.
      build_post_processors plugin cfg.post_processing >>= λ post.
      guard_buffering post.0 built >>= λ profiles.
      (let (calls, registered) = build_datalayer_sources cfg.datalayer plugin in
        registered >>= λ _. build_model_selector max_score profiles [] >>= λ pipelines. ok (record {
          configuration = record {
            profile_picker = profile_picker_of (plugin picker);
            profiles = profiles;
            pre_processors = pre;
            post_processors = post.0;
            response_headers_post_processors = post.1;
          };
          pipelines = pipelines;
          registrations = calls;
        }))

  unfoldable pub load_configuration :
      (Bytes → Option (Bytes → Bytes → Result (Instance W)))
      → (Bytes → Result (PayloadProcessorConfig N.F))
      → Bytes × Picker W
      → Bytes
      → Result (Loaded W)
  load_configuration registry decode max_score bytes =
      load_raw_configuration decode bytes >>= λ cfg.
      instantiate_plugins registry cfg.plugins >>= λ handle.
      apply_plugin_defaults registry cfg handle >>= λ defaults.
      build_configuration max_score cfg defaults.0 defaults.1
