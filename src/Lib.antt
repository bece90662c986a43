-- ===== src/Lib.antt =====
-- A verification library for the inference payload processor, the Envoy external processing server
-- that edits the requests and responses of inference traffic and selects the model that serves a
-- request.
--
-- The program. Envoy opens one stream for each HTTP request and sends the request's headers and body
-- and the response's headers and body as messages; pkg/handlers/server.go, `Process`, is the loop
-- over them. It collects the bodies, calls the handlers of pkg/handlers/request.go and response.go,
-- sends their responses, and answers an error by way of pkg/common/error. The handlers decode the
-- body into an `InferenceMessage`, run plugins that edit it, and turn the recorded edits into
-- responses with the helpers of pkg/common/envoy. Which plugins run is a profile's matter. One of the
-- request plugins selects a model with the pipeline of pkg/modelselector: filters, weighted scorers
-- and a picker. Another one maps a model to its base model, from a store that a reconciler keeps in
-- step with Kubernetes configmaps. The candidates are the models of an in-memory data store: a data
-- source keeps it in step with a file of prices and groups, and extractors add what they count of the
-- events that the stream loop notifies; pkg/datalayer runs them. The configuration loader makes the
-- plugins and the profiles.
--
-- The files, and what they model:
--   Prelude      names of the libraries, lists, Go strings as lists of bytes, Go maps as association
--                lists (Prelude/Map), and two interfaces: sets of k8s.io/apimachinery (Prelude/Sets)
--                and float64 (Prelude/Float), each with an instance that runs
--   Message      pkg/framework/interface/requesthandling/types.go: the message, its setters, and
--                under Message/ the header edits as a receiver replays them and the body flag
--   Envoy        the Envoy messages; Envoy/Headers and Envoy/Chunking are pkg/common/envoy/headers.go
--                and chunking.go
--   Errors       pkg/common/error/error.go, with the outcome of a Go call: a value, an error, a panic
--   Json         decoded JSON values
--   DataLayer    pkg/framework/interface/datalayer: models; DataLayer/Attributes is attributemap.go,
--                DataLayer/Datastore pkg/datastore/inmemory, and DataLayer/Processor
--                pkg/datalayer/processor.go: the events, goroutines and interleavings, with the
--                delivery of events and the shutdown below it
--   ModelConfig  pkg/framework/plugins/datalayer/modelconfigcollector and interface/datalayer/pricing
--   RequestMetadata and RequestCost: the extractors of pkg/framework/plugins/datalayer
--   CycleState   pkg/framework/interface/plugin/cycle_state.go, and the plugin
--                pkg/framework/plugins/responsehandling/modelnametoheader
--   Framework    the plugin interfaces of pkg/framework/interface
--   Selector     pkg/modelselector: the pipeline and `Select`; Selector/Filtering, Selector/Scoring,
--                Selector/Entries and Selector/Choice are about its stages, Selector/Register is `AddPlugins`
--   Pickers      pkg/framework/plugins/modelselector/picker: the max-score, the random and the weighted
--                random picker
--   Handlers     pkg/handlers: the server and the context of a stream; Handlers/Request,
--                Handlers/Response and Handlers/Sse are request.go and response.go, Handlers/Process
--                is `Process` of server.go
--   Adapters     pkg/framework/plugins/requesthandling/basemodelextractor: adapters_store.go, and in
--                Adapters/Reconciler configmap_reconciler.go and base_model_to_header.go
--   Plugins      the plugins bodyfieldtoheader, profilepicker/single and modelselector of
--                pkg/framework/plugins/requesthandling, and in Plugins/ModelGroup the filter
--                pkg/framework/plugins/modelselector/filter/modelgroup
--   Session      the scorer sessionaffinity of pkg/framework/plugins/modelselector/scorer; Scorers the
--                scorers inflightrequests and costaware, and Scorers/CostGuard the scorer costguard
--   Config       pkg/config/loader: Config/Instances is the instantiation of plugins and defaults.go,
--                Config/Profiles `buildProfiles`, Config/Building and Config/Placing the pre- and
--                post-processors, Config/Loading `LoadConfiguration`
--   Tests        runs on concrete inputs
--
-- A function of the model has the name of the Go function, in snake case. What Go code changes
-- besides its receiver, the state of plugins, caches, clocks and the cycle state, is one state `W` that
-- calls pass on, so a plugin is any function on its message and `W`, and it may fail or panic; filters
-- and scorers get the request by pointer, so they may edit it, and they may panic. JSON and YAML
-- decoding, the trace propagator, the random shuffle, `SortStableFunc` of package slices
-- (Pickers/Sorting), grpc's status codes and the sending of a response are parameters. Float64 has the
-- laws of IEEE comparison only, which hold of NaN too; the sort is known for a strict weak order only,
-- which scores are without NaN. A `range` over a map or a set visits it in the order of its list, and
-- the theorems hold for every order.
--
-- Bounds. The chunk size is the source's, 62000 bytes. The chunk loop recurs on fuel, the length of
-- the body; each round takes at least one byte, so the fuel is enough, and that no byte is missing
-- is part of what is shown of it. Every other loop recurs on its list. Lengths and the
-- reconciler's counters are unbounded: no body has 2^63 bytes and no cluster 2^63 configmaps.
--
-- The counters of requests are 64-bit integers that wrap (Prelude/Int). A goroutine of the data
-- layer's processor is an entry of its state, `Start` launches them one step at a time, and every
-- interleaving of the goroutines' moves with the calls is a list of steps; a poll of a collector, which
-- changes nothing of the processor, is no step. The session cache reads a clock.
-- The digests, the session cache and the functions of package math are interfaces.
--
-- Not modelled: spans, metrics, logs and timestamps; the runner, the server's options and most of the
-- factories, which wire things up; generated code. Texts are ASCII where the source changes their case or
-- trims them.
pub mod Prelude
pub mod Message
pub mod ModelConfig
pub mod Envoy
pub mod Errors
pub mod Json
pub mod DataLayer
pub mod Framework
pub mod Pickers
pub mod Selector
pub mod Handlers
pub mod Adapters
pub mod Plugins
pub mod Config
pub mod RequestMetadata
pub mod CycleState
pub mod RequestCost
pub mod Scorers
pub mod Session
pub mod Tests
