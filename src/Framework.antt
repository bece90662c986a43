-- ===== src/Framework.antt =====
-- The plugin interfaces: pkg/framework/interface/modelselector and requesthandling. What a plugin
-- may read and change besides its arguments (the cycle state, caches, the data store, clocks and
-- random numbers) is a state `W` that calls pass on. A Go plugin may implement several interfaces;
-- an assertion to an interface is a field that is there or not.
use llm_d_inference_payload.Prelude.{Bytes, StringSet, Float64, Bool, false, List, [], Option}
use llm_d_inference_payload.Prelude.Map.{Map}
use llm_d_inference_payload.Message.{Message, Response}
use llm_d_inference_payload.Json.{Value}
use llm_d_inference_payload.DataLayer.{Model}
use llm_d_inference_payload.Errors.{Result, ok, err, panic}

-- `ScoredModel`
pub record ScoredModel (F : Type 0) : Type 0 where
  pub model : Model F
  pub score : F

module _ ⦃S : StringSet⦄ ⦃N : Float64⦄ where
  abbrev pub InferenceRequest : Type 0
  InferenceRequest = Message (Value N.F)

  abbrev pub InferenceResponse : Type 0
  InferenceResponse = Response (Value N.F)

module _ ⦃S : StringSet⦄ ⦃N : Float64⦄ (W : Type 0) where
  -- The request, the state and the result that a plugin leaves, which gets the request by pointer.
  abbrev pub Outcome : Type 0 → Type 0
  Outcome A = InferenceRequest × W × Result A

  -- A filter, a scorer and a picker return no error: they return or panic.
  abbrev pub Filter : Type 0
  Filter = InferenceRequest → List (Model N.F) → W → Outcome (List (Model N.F))

  -- The scores, as a list in the order in which the returned map is visited.
  abbrev pub Scorer : Type 0
  Scorer = InferenceRequest → List (Model N.F) → W → Outcome (List (Model N.F × N.F))

  -- The target model; `none` is a nil result, or one with a nil target.
  abbrev pub Picker : Type 0
  Picker = List (ScoredModel N.F) → W → Result (Option (Model N.F)) × W

  -- A processor edits its message in place, also when it fails.
  abbrev pub RequestProcessor : Type 0
  RequestProcessor = InferenceRequest → W → Outcome (Unit {0})

  abbrev pub ResponseProcessor : Type 0
  ResponseProcessor = InferenceResponse → W → InferenceResponse × W × Result (Unit {0})

  -- The flag says whether the chunk is the last.
  abbrev pub ResponseChunkProcessor : Type 0
  ResponseChunkProcessor = Bool → ResponseProcessor

module _ ⦃S : StringSet⦄ ⦃N : Float64⦄ {W : Type 0} where
  -- what follows a call that returns; a panic of the call ends the caller too
  abbrev pub proceed :
      {A B : Type 0} → Result A → InferenceRequest → W → (A → Outcome W B) → Outcome W B
  proceed (ok a) request w f = f a
  proceed (err e) request w f = (request, w, err e)
  proceed panic request w f = (request, w, panic)

-- `Profile`, as the handlers use it; the plugins that a profile hands to a model selector stand
-- beside it where the loader builds it.
pub record Profile ⦃S : StringSet⦄ ⦃N : Float64⦄ (W : Type 0) : Type 0 where
  pub request_plugins : List (RequestProcessor W)
  pub response_plugins : List (ResponseProcessor W)
  pub response_chunk_processors : List (ResponseChunkProcessor W)
  pub needs_response_buffering : Bool

module _ ⦃S : StringSet⦄ ⦃N : Float64⦄ (W : Type 0) where
  -- The picked profile; `none` is a nil one.
  abbrev pub ProfilePicker : Type 0
  ProfilePicker = InferenceRequest → Map Bytes (Profile W) → W → Result (Option (Profile W)) × W

module _ ⦃S : StringSet⦄ ⦃N : Float64⦄ {W : Type 0} where
  -- `NewProfile`
  abbrev pub new_profile : Profile W
  new_profile = record {
    request_plugins = [];
    response_plugins = [];
    response_chunk_processors = [];
    needs_response_buffering = false;
  }
