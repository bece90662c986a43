-- ===== src/Tests/Selection.antt =====
-- The model selector and its plugins.
use llm_d_inference_payload.Prelude.{
  thousandths, ◌++◌, Bytes, bytes_dec, codes, ℕ, false, List, [], ◌∷◌, none, some, ◌≡◌, refl, ◌⊎◌,
  take, All, Any, Bool, true, inl, if◌then◌else◌,
}
use llm_d_inference_payload.Prelude.Map
use llm_d_inference_payload.Json.{Value}
use llm_d_inference_payload.DataLayer.{Model, Attribute}
use llm_d_inference_payload.Message.{body_field}
use llm_d_inference_payload.Errors.{GoError, ok, err, panic}
use llm_d_inference_payload.Framework.{Filter, InferenceRequest, ScoredModel}
use llm_d_inference_payload.Selector.{
  Pipeline, WeightedScorer, run_filter_plugins, run_scorer_plugins, run_picker_plugin, run, select,
  values,
}
use llm_d_inference_payload.Selector.Filtering.{filter_all, run_filter_plugins-filter_all}
use llm_d_inference_payload.Selector.Scoring.{
  last_named, total, scored_at, reading, get-run_scorer_plugins,
}
use llm_d_inference_payload.Selector.Choice.{Ends, max_score_pipeline, select-Chosen}
use llm_d_inference_payload.Selector.Register.{PluginObject, add_plugins}
use llm_d_inference_payload.Selector.Register.Laws.{add_plugins_all_or_nothing}
use llm_d_inference_payload.Selector.Register.Spec.{Admissible, all_filters, all_scorers}
use llm_d_inference_payload.Pickers.{max_score_pick}
use llm_d_inference_payload.Pickers.MaxScore.{IsBest, IsNumber, max_score_pick-IsBest}
use llm_d_inference_payload.Plugins.{process_model_request}
use llm_d_inference_payload.Plugins.ModelGroup.{
  admits, explicit, keep, model_group_filter, model_group_filter-keep,
}
use llm_d_inference_payload.Plugins.Selection.{AsksFor, process_model_request-AsksFor}
use llm_d_inference_payload.Scorers.{cost_scorer}
use llm_d_inference_payload.Scorers.Unpriced.{IsUnpriced, select_unpriced}
use llm_d_inference_payload.Tests.Sorting.{by_insertion}
use llm_d_inference_payload.Tests.Fixtures.{sets, floats, alpha, beta}

abbrev request : InferenceRequest
request = record {
  headers = [];
  body = some ((codes "model", Value.str (codes "auto/fast")) ∷ []);
  mutated_headers = [];
  removed_headers = sets.new;
  body_mutated = false;
}

-- a filter that keeps the first candidate
abbrev first_only : Filter ℕ
first_only r models w = (r, w, ok (take 1 models))

run_filter_plugins-filter_all_example :
    run_filter_plugins (first_only ∷ []) request (alpha ∷ beta ∷ []) 0
    ≡ filter_all (first_only ∷ []) request (alpha ∷ beta ∷ []) 0
run_filter_plugins-filter_all_example =
    run_filter_plugins-filter_all (first_only ∷ []) request (alpha ∷ beta ∷ []) 0 (λ r w. refl, tt)

-- a scorer that prefers `beta`
abbrev scorers : List (WeightedScorer ℕ)
scorers =
    record {
      scorer = λ r models w. (r, w, ok ((alpha, floats.zero_f) ∷ (beta, floats.one_f) ∷ []));
      weight = floats.one_f;
    }
    ∷ []

get-run_scorer_plugins_example :
    reading
      (Map.get bytes_dec (codes "beta"))
      (run_scorer_plugins scorers request (alpha ∷ beta ∷ []) 0)
    ≡ reading
        (scored_at (last_named (codes "beta") (alpha ∷ beta ∷ []) none))
        (total (codes "beta") scorers request (alpha ∷ beta ∷ []) 0 floats.zero_f)
get-run_scorer_plugins_example =
    get-run_scorer_plugins scorers request (alpha ∷ beta ∷ []) 0 (codes "beta")

-- a shuffle that swaps the first two
abbrev swap_first : ℕ → ℕ → List (ℕ × ℕ) × ℕ
swap_first n w = ((0, 1) ∷ [], w)

abbrev pipeline : Pipeline ℕ
pipeline = max_score_pipeline swap_first by_insertion (first_only ∷ []) scorers

-- the thousandths have no NaN
All-IsNumber : (xs : List (ScoredModel floats.F)) → All IsNumber xs
unfolding thousandths
All-IsNumber [] = tt
All-IsNumber (x ∷ xs) = (refl, All-IsNumber xs)

select-Chosen_example :
    Ends swap_first by_insertion scorers
      (run_filter_plugins (first_only ∷ []) request (alpha ∷ beta ∷ []) 0)
      (select pipeline request (alpha ∷ beta ∷ []) 0).2
select-Chosen_example =
    select-Chosen swap_first by_insertion (first_only ∷ []) scorers request alpha (beta ∷ []) 0
      (λ models scores e f. All-IsNumber (values scores))

abbrev scored : List (ScoredModel floats.F)
scored =
    record { model = alpha; score = floats.zero_f }
    ∷ record { model = beta; score = floats.one_f }
    ∷ []

max_score_pick-IsBest_example :
    ((scored ≡ []) × ((max_score_pick swap_first by_insertion scored 0).0 ≡ panic))
    ⊎ ((best : ScoredModel floats.F) × IsBest scored best
        × ((max_score_pick swap_first by_insertion scored 0).0 ≡ ok (some best.model)))
max_score_pick-IsBest_example =
    max_score_pick-IsBest swap_first by_insertion scored 0 (All-IsNumber scored)

abbrev fast_model : Model floats.F
fast_model = record {
  name = codes "gamma";
  attributes = (codes "model_groups", Attribute.groups (codes "fast" ∷ [])) ∷ [];
}

model_group_filter-keep_example :
    let field = body_field request (codes "model") in
    let kept = keep (admits field) (alpha ∷ fast_model ∷ []) in
    model_group_filter {W = ℕ} request (alpha ∷ fast_model ∷ []) 0
    ≡ (request, 0, ok (if explicit field then take 1 kept else kept))
model_group_filter-keep_example =
    model_group_filter-keep {W = ℕ} request (alpha ∷ fast_model ∷ []) 0

abbrev candidates : ℕ → List (Model floats.F)
candidates w = alpha ∷ beta ∷ []

abbrev write_selected : Bytes → ℕ → ℕ
write_selected name w = w

body_kept :
    (select pipeline request (candidates 0) 0).0.body
    ≡ some ((codes "model", Value.str (codes "auto/fast")) ∷ [])
unfolding select run run_filter_plugins run_scorer_plugins run_picker_plugin
body_kept = refl

process_model_request-AsksFor_example :
    let (request', w', selected) = select pipeline request (candidates 0) 0 in
    let (after, w'', r) = process_model_request pipeline candidates write_selected request 0 in
    ((m : Model floats.F) × (selected ≡ ok m)
      × AsksFor pipeline candidates write_selected m request' after
      × (w'' ≡ write_selected m.name w')
      × (r ≡ ok tt))
    ⊎ ((after ≡ request')
        × (w'' ≡ w')
        × (((e : GoError) × (selected ≡ err e) × (r ≡ err e)) ⊎ (selected ≡ panic) × (r ≡ panic)))
process_model_request-AsksFor_example =
    process_model_request-AsksFor pipeline candidates write_selected request 0 body_kept refl

-- two plugins that are pickers, for a pipeline without one
abbrev two_pickers : List (PluginObject ℕ)
two_pickers =
    PluginObject.other (record {
      typed_name = codes "a";
      filter = none;
      picker = some (max_score_pick swap_first by_insertion);
    })
    ∷ PluginObject.other (record {
      typed_name = codes "b";
      filter = none;
      picker = some (max_score_pick swap_first by_insertion);
    })
    ∷ []

abbrev no_picker : Pipeline ℕ
no_picker = record { filters = first_only ∷ []; scorers = scorers; picker = none }

add_plugins_all_or_nothing_example :
    let (p', failure) = add_plugins (codes "none") no_picker two_pickers in
    (Admissible 0 two_pickers
      × (failure ≡ none)
      × (p' ≡ record {
        filters = no_picker.filters ++ all_filters two_pickers;
        scorers = no_picker.scorers ++ all_scorers two_pickers;
        picker = some (max_score_pick swap_first by_insertion);
      }))
    ⊎ ((Admissible 0 two_pickers → ⊥) × (p' ≡ no_picker) × ((e : GoError) × (failure ≡ some e)))
add_plugins_all_or_nothing_example = add_plugins_all_or_nothing (codes "none") no_picker two_pickers

-- a price that is not above zero
abbrev is_zero : floats.F → Bool
is_zero x = if floats.lt floats.zero_f x then false else true

kept_both :
    run_filter_plugins {W = ℕ} [] request (alpha ∷ beta ∷ []) 0
    ≡ (request, 0, ok (alpha ∷ beta ∷ []))
unfolding run_filter_plugins
kept_both = refl

alpha-IsUnpriced : Any IsUnpriced (alpha ∷ beta ∷ [])
unfolding Map.get
alpha-IsUnpriced = inl refl

select_unpriced_example :
    select
      (record {
        filters = [];
        scorers =
            record { scorer = cost_scorer floats.zero_f is_zero; weight = floats.one_f } ∷ scorers;
        picker = some (max_score_pick swap_first by_insertion);
      })
      request
      (alpha ∷ beta ∷ [])
      0
    ≡ (request, 0, panic)
select_unpriced_example =
    select_unpriced floats.zero_f is_zero floats.one_f [] scorers
      (some (max_score_pick swap_first by_insertion)) request request alpha (beta ∷ []) 0 0 alpha
      beta [] kept_both alpha-IsUnpriced
