-- ===== src/Selector/Filtering.antt =====
-- pkg/modelselector/model_selector_pipeline.go: the filters.
use llm_d_inference_payload.Prelude.{
  StringSet, Float64, List, [], ◌∷◌, ◌≡◌, refl, is_empty, if◌then◌else◌, All, sym, inl, inr,
}
use llm_d_inference_payload.Errors.{ok}
use llm_d_inference_payload.Errors.Cases.{Result-cases}
use llm_d_inference_payload.DataLayer.{Model}
use llm_d_inference_payload.Framework.{InferenceRequest, Outcome, Filter, proceed}
use llm_d_inference_payload.Selector.{run_filter_plugins}

module _ ⦃S : StringSet⦄ ⦃N : Float64⦄ {W : Type 0} where
  -- every filter in turn, with no early exit
  unfoldable pub filter_all :
      List (Filter W) → InferenceRequest → List (Model N.F) → W → Outcome W (List (Model N.F))
  filter_all [] request models w = (request, w, ok models)
  filter_all (f ∷ fs) request models w =
      let (request', w', result) = f request models w in
      proceed result request' w' (λ filtered. filter_all fs request' filtered w')

  -- the filter makes nothing out of no candidates, and changes nothing then
  abbrev pub LeavesNone : Filter W → Type 0
  LeavesNone f = (request : InferenceRequest) (w : W) → f request [] w ≡ (request, w, ok [])

  filter_all-nil :
      (fs : List (Filter W)) (request : InferenceRequest) (w : W)
      → All LeavesNone fs
      → filter_all fs request [] w ≡ (request, w, ok [])
  unfolding filter_all
  filter_all-nil [] request w h = refl
  filter_all-nil (f ∷ fs) request w h = rw (h.0 request w) (filter_all-nil fs request w h.1)

  leave_early :
      (fs : List (Filter W)) (request : InferenceRequest) (ms : List (Model N.F)) (w : W)
      → All LeavesNone fs
      → run_filter_plugins fs request ms w ≡ filter_all fs request ms w
      → (if is_empty ms then (request, w, ok ms) else run_filter_plugins fs request ms w)
        ≡ filter_all fs request ms w
  leave_early fs request [] w h e = sym (filter_all-nil fs request w h)
  leave_early fs request (m ∷ ms) w h e = e

  -- Leaving the loop once no candidate is left changes nothing, for filters that make no candidate
  -- out of none and leave the request and the state alone then: the filters are run one after the
  -- other, until one panics.
  pub run_filter_plugins-filter_all :
      (fs : List (Filter W)) (request : InferenceRequest) (models : List (Model N.F)) (w : W)
      → All LeavesNone fs
      → run_filter_plugins fs request models w ≡ filter_all fs request models w
  unfolding run_filter_plugins filter_all
  run_filter_plugins-filter_all [] request models w h = refl
  run_filter_plugins-filter_all (f ∷ fs) request models w h =
      let (request', w', result) = f request models w in
      elim (Result-cases result) [
        | inl (ms, e) ↦ rw e (
            leave_early fs request' ms w' h.1 (run_filter_plugins-filter_all fs request' ms w' h.1))
        | inr (inl (x, e)) ↦ rw e refl
        | inr (inr e) ↦ rw e refl
      ]
