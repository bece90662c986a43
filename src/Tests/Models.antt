-- ===== src/Tests/Models.antt =====
-- The models of the data store, from their configuration and from the events.
use llm_d_inference_payload.Prelude.{
  Bytes, bytes_dec, codes, thousandths, false, ℤ, pos, List, [], ◌∷◌, none, some, ◌≡◌, refl, ◌⊎◌,
  arith,
}
use llm_d_inference_payload.Prelude.Map
use llm_d_inference_payload.Json.{Value}
use llm_d_inference_payload.DataLayer.{other}
use llm_d_inference_payload.DataLayer.Attributes.{Attributes}
use llm_d_inference_payload.DataLayer.Datastore.{
  Datastore, get_or_create_model, update_model, delete_model, get_models,
}
use llm_d_inference_payload.DataLayer.Datastore.Laws.{attributes_of, or_empty}
use llm_d_inference_payload.Framework.{InferenceRequest}
use llm_d_inference_payload.Handlers.{Event, request_event}
use llm_d_inference_payload.ModelConfig.{
  ModelConfiguration, ModelGroupConfig, ModelsConfig, add_groups, refresh, is_valid, sync_config,
}
use llm_d_inference_payload.ModelConfig.Groups.{groups_of, entry_of}
use llm_d_inference_payload.ModelConfig.Sync.{last_entry, refreshed, sync_config-Listed}
use llm_d_inference_payload.RequestMetadata.{RequestMetadataCount, count_events, extract}
use llm_d_inference_payload.RequestMetadata.Published.{IsPublished, extract-IsPublished}
use llm_d_inference_payload.RequestMetadata.Flight.{in_flight, requests_of, count_events-in_flight}
use llm_d_inference_payload.Prelude.{ℕ, Bool, true, false, ◌==◌, ap, suc}
use llm_d_inference_payload.Handlers.{response_event}
use llm_d_inference_payload.RequestCost.{CostDigests, CostExtractor, extract_costs}
use llm_d_inference_payload.RequestCost.Frame.{attribute_at, attribute_at-extract_costs}
use llm_d_inference_payload.Prelude.{inl, inr, ◌++◌}
use llm_d_inference_payload.Errors.{Result, ok}
use llm_d_inference_payload.ModelConfig.Watch.{
  FileOps, WatchEvent, watcher_error, file_event, watch,
}
use llm_d_inference_payload.ModelConfig.Watch.Converging.{watch-Listed}
use llm_d_inference_payload.Tests.Fixtures.{sets, floats}

abbrev cheap : ModelGroupConfig
cheap = record { name = codes "cheap"; models = codes "alpha" ∷ codes "" ∷ codes "beta" ∷ [] }

abbrev nameless : ModelGroupConfig
nameless = record { name = []; models = codes "alpha" ∷ [] }

abbrev fast : ModelGroupConfig
fast = record { name = codes "fast"; models = codes "alpha" ∷ [] }

abbrev group_configs : List ModelGroupConfig
group_configs = cheap ∷ nameless ∷ fast ∷ []

abbrev entry : ModelConfiguration floats.F
entry = record {
  name = codes "alpha";
  pricing = record { input_per_million = floats.of_ℕ 3; output_per_million = floats.of_ℕ 6 };
}

abbrev models_config : ModelsConfig floats.F
models_config = record { models = entry ∷ []; groups = group_configs }

-- a store with a model that the configuration does not list
abbrev old_store : Datastore floats.F
old_store = record { models = (codes "gamma", []) ∷ [] }

membership_runs :
    Map.get bytes_dec (codes "alpha") (add_groups group_configs [])
    ≡ some (codes "cheap" ∷ codes "fast" ∷ [])
unfolding add_groups Map.get Map.put bytes_dec
membership_runs = refl

sync_removes : attributes_of (codes "gamma") (sync_config models_config old_store) ≡ none
unfolding thousandths sync_config get_models update_model get_or_create_model delete_model refresh
    is_valid Map.get Map.put Map.delete bytes_dec add_groups
sync_removes = refl

sync_config-Listed_example :
    ((last_entry (codes "alpha") models_config.models ≡ none)
      × (attributes_of (codes "alpha") (sync_config models_config old_store) ≡ none))
    ⊎ ((e : ModelConfiguration floats.F) × (last_entry (codes "alpha") models_config.models
          ≡ some e)
        × ((m : Attributes floats.F) × (attributes_of
                (codes "alpha")
                (sync_config models_config old_store)
              ≡ some m)
            × ((key : Bytes)
                → Map.get bytes_dec key m
                  ≡ refreshed (entry_of (groups_of (codes "alpha") models_config.groups)) e key (
                      Map.get bytes_dec key (or_empty (attributes_of (codes "alpha") old_store))))))
sync_config-Listed_example = sync_config-Listed (codes "alpha") models_config old_store

-- a request of the model `alpha`
abbrev alpha_request : InferenceRequest
alpha_request = record {
  headers = [];
  body = some ((codes "model", Value.str (codes "alpha")) ∷ []);
  mutated_headers = [];
  removed_headers = sets.new;
  body_mutated = false;
}

abbrev events : List Event
events = request_event alpha_request ∷ request_event alpha_request ∷ []

-- a conversion that loses everything
abbrev truncated : floats.F → ℤ
truncated n = pos 0

no_counts : (name : Bytes) → Map.get {V = RequestMetadataCount} bytes_dec name [] ≡ none
unfolding Map.get
no_counts name = refl

extract-IsPublished_example :
    IsPublished
      (extract truncated events ([], old_store)).0
      (extract truncated events ([], old_store)).1
extract-IsPublished_example =
    extract-IsPublished truncated events [] old_store
      (λ name c e. let none_yet = no_counts name in absurd (ground arith))

requests_none : requests_of (codes "alpha") [] ≡ pos 0
unfolding Map.get
requests_none = refl

count_events-in_flight_example :
    requests_of (codes "alpha") (count_events truncated events ([], [])).0
    ≡ pos (in_flight (codes "alpha") events 0)
count_events-in_flight_example =
    count_events-in_flight truncated (codes "alpha") events 0 [] [] (omega arith) requests_none

-- digests that count their samples
abbrev counting : CostDigests floats.F
counting = record {
  Digest = ℕ;
  new = λ compression. some 0;
  reset = λ d. 0;
  add = λ cost d. some (suc d);
  attribute = λ d. other;
  is_not_positive = λ x. false;
}

abbrev each_event : CostExtractor floats.F
each_event = record { compression = floats.one_f; flush_interval = 0; window_duration = 0 }

abbrev alpha_answer : Event
alpha_answer =
    response_event alpha_request
      (record { message = alpha_request; current_chunk = []; chunk_mutated = false })

-- whether a text begins with a `c` as the key of the digests does
begins_with_c : Bytes → Bool
begins_with_c [] = false
begins_with_c (c ∷ s) = c == 99

other_key : codes "cost_digest" ≡ codes "token_prices" → ⊥
unfolding begins_with_c
other_key e = let same : true ≡ false = ap begins_with_c e in absurd (ground arith)

attribute_at-extract_costs_example :
    attribute_at counting each_event 7
      (codes "alpha")
      (codes "token_prices")
      (extract_costs counting each_event 7 (alpha_answer ∷ []) ([], old_store)).1
    ≡ attribute_at counting each_event 7 (codes "alpha") (codes "token_prices") old_store
attribute_at-extract_costs_example =
    attribute_at-extract_costs counting each_event 7 (codes "alpha") (codes "token_prices")
      (alpha_answer ∷ []) [] old_store other_key

abbrev decodes : Bytes → Result (ModelsConfig floats.F)
decodes content = ok models_config

abbrev written : FileOps
written = record { write = true; create = false; remove = false; rename = false }

abbrev no_file : ℕ → Bool
no_file e = true

-- an error of the watcher, and the file removed
abbrev earlier : List (WatchEvent ℕ)
earlier =
    watcher_error ∷ file_event (some (codes "/m")) (record written { remove = true }) (inr 2) ∷ []

watch-Listed_example :
    let before = watch decodes no_file (codes "/m") earlier old_store in
    let after =
      watch decodes no_file
        (codes "/m")
        (earlier ++ (file_event (some (codes "/m")) written (inl (codes "{}")) ∷ []))
        old_store in
    ((last_entry (codes "alpha") models_config.models ≡ none)
      × (attributes_of (codes "alpha") after ≡ none))
    ⊎ ((e : ModelConfiguration floats.F) × (last_entry (codes "alpha") models_config.models
          ≡ some e)
        × ((m : Attributes floats.F) × (attributes_of (codes "alpha") after ≡ some m)
            × ((key : Bytes)
                → Map.get bytes_dec key m
                  ≡ refreshed
                      (entry_of (groups_of (codes "alpha") models_config.groups))
                      e
                      key
                      (Map.get bytes_dec key (or_empty (attributes_of (codes "alpha") before))))))
watch-Listed_example =
    watch-Listed decodes no_file (codes "/m") earlier written (codes "{}") models_config old_store
      (codes "alpha") (tt, (tt, tt)) refl refl refl
