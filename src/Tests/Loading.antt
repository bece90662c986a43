-- ===== src/Tests/Loading.antt =====
-- The configuration loader.
use llm_d_inference_payload.Prelude.{
  Bytes, codes, ℕ, false, List, [], ◌∷◌, Option, none, some, All, ◌≡◌, ◌≢◌, ◌⊎◌,
}
use llm_d_inference_payload.Errors.{GoError, ok, err}
use llm_d_inference_payload.Framework.{ResponseProcessor}
use llm_d_inference_payload.Config.{Instance, build_pre_processors, build_post_processors}
use llm_d_inference_payload.Config.Building.{request_part, all_requests, build_pre_processors-list}
use llm_d_inference_payload.Config.Placing.{
  Placed, all_bodies, all_headers, build_post_processors-lists,
}
use llm_d_inference_payload.Prelude.{contains, list_set, bytes_dec, true, refl}
use llm_d_inference_payload.Prelude.Map
use llm_d_inference_payload.Prelude.Map.{Map}
use llm_d_inference_payload.Errors.{Result, panic}
use llm_d_inference_payload.Framework.{Picker}
use llm_d_inference_payload.Config.{place}
use llm_d_inference_payload.Config.Instances.{
  PluginSpec, PayloadProcessorConfig, apply_raw_config_defaults, create_plugin, instantiate_plugin,
  instantiate_plugins, apply_plugin_defaults,
}
use llm_d_inference_payload.Config.Instances.Laws.{IsMade, instantiate_plugins-IsMade}
use llm_d_inference_payload.Config.Profiles.{
  build_profile, build_profiles, place_response, finish_profile,
}
use llm_d_inference_payload.Config.Loading.{
  Loaded, load_raw_configuration, guard_buffering, build_datalayer_sources, build_model_selector,
  profile_picker_of, build_configuration, load_configuration,
}
use llm_d_inference_payload.Config.Loading.Laws.{IsConsistent, load_configuration-IsConsistent}
use llm_d_inference_payload.Tests.Fixtures.{sets, floats}

abbrev idle : ResponseProcessor ℕ
idle r w = (r, w, ok tt)

-- every name is that of a plugin that processes bodies and headers
abbrev both : Instance ℕ
both = record {
  name = codes "both";
  request_processor = none;
  response_processor = some idle;
  response_headers_processor = some idle;
  response_chunk_processor = none;
  profile_picker = none;
  facets = record { typed_name = codes "both"; filter = none; picker = none };
  scorer = none;
  is_model_selector = false;
  collector_frequency = none;
  is_extractor = false;
  is_data_source = false;
}

abbrev lookup_plugin : Bytes → Option (Instance ℕ)
lookup_plugin name = some both

abbrev references : List Bytes
references = codes "a" ∷ codes "b" ∷ []

build_post_processors-lists_example :
    (All (λ ref. Placed (lookup_plugin ref)) references
      × (build_post_processors lookup_plugin references
          ≡ ok (all_bodies lookup_plugin references, all_headers lookup_plugin references)))
    ⊎ ((All (λ ref. Placed (lookup_plugin ref)) references → ⊥)
        × ((e : GoError) × (build_post_processors lookup_plugin references ≡ err e)))
build_post_processors-lists_example = build_post_processors-lists lookup_plugin references

build_pre_processors-list_example :
    (All (λ ref. request_part (lookup_plugin ref) ≢ none) references
      × (build_pre_processors lookup_plugin references
          ≡ ok (all_requests lookup_plugin references)))
    ⊎ ((All (λ ref. request_part (lookup_plugin ref) ≢ none) references → ⊥)
        × ((e : GoError) × (build_pre_processors lookup_plugin references ≡ err e)))
build_pre_processors-list_example = build_pre_processors-list lookup_plugin references

-- a registry that makes the plugin above for every type
abbrev every_type : Bytes → Option (Bytes → Bytes → Result (Instance ℕ))
every_type type_name = some (λ name parameters. ok both)

abbrev specs : List PluginSpec
specs =
    record { name = codes "a"; type_name = codes "both"; parameters = [] }
    ∷ record { name = codes "b"; type_name = codes "both"; parameters = [] }
    ∷ []

abbrev two_plugins : Map Bytes (Instance ℕ)
two_plugins = (codes "a", both) ∷ (codes "b", both) ∷ []

instantiates : instantiate_plugins every_type specs ≡ ok two_plugins
unfolding instantiate_plugins instantiate_plugin create_plugin Map.put bytes_dec contains list_set
instantiates = refl

instantiate_plugins-IsMade_example : All (IsMade every_type two_plugins) specs
instantiate_plugins-IsMade_example =
    instantiate_plugins-IsMade every_type specs two_plugins instantiates

abbrev raw_config : PayloadProcessorConfig floats.F
raw_config = record {
  plugins = specs;
  pre_processing = [];
  profile_picker = codes "a";
  profiles =
      record {
        name = codes "default";
        plugins = some (record {
          request = [];
          response = record { plugin_ref = codes "b"; weight = none } ∷ [];
        });
      }
      ∷ [];
  post_processing = codes "a" ∷ [];
  datalayer = none;
}

abbrev decoded : Bytes → Result (PayloadProcessorConfig floats.F)
decoded bytes = ok raw_config

abbrev first_model : Bytes × Picker ℕ
first_model = (codes "max-score-picker", λ models w. (panic, w))

abbrev loaded : Loaded ℕ
loaded = record {
  configuration = record {
    profile_picker = none;
    profiles =
        (
          codes "default",
          record {
            profile = record {
              request_plugins = [];
              response_plugins = idle ∷ [];
              response_chunk_processors = [];
              needs_response_buffering = true;
            };
            model_selector_plugins = [];
            model_selectors = [];
          },
        )
        ∷ [];
    pre_processors = [];
    post_processors = idle ∷ [];
    response_headers_post_processors = idle ∷ [];
  };
  pipelines = [];
  registrations = [];
}

-- a plugin that is no profile picker is named as one: the load succeeds, without a picker
loads : load_configuration every_type decoded first_model (codes "{}") ≡ ok loaded
unfolding load_configuration load_raw_configuration apply_raw_config_defaults instantiate_plugins
    instantiate_plugin create_plugin apply_plugin_defaults build_configuration build_profiles
    build_profile place_response finish_profile build_pre_processors build_post_processors place
    guard_buffering build_datalayer_sources build_model_selector profile_picker_of Map.put Map.get
    bytes_dec contains list_set
loads = refl

load_configuration-IsConsistent_example :
    All
      (λ e. IsConsistent loaded.configuration.post_processors e.1.profile)
      loaded.configuration.profiles
load_configuration-IsConsistent_example =
    load_configuration-IsConsistent every_type decoded first_model (codes "{}") loaded loads
