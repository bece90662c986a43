-- ===== src/RequestCost/Frame.antt =====
-- pkg/framework/plugins/datalayer/requestcostmetadata/plugin.go, `Extract`: what it leaves alone.
use llm_d_inference_payload.Prelude.{
  Bytes, bytes_dec, codes, StringSet, Float64, ℕ, List, [], ◌∷◌, Option, none, some, is_empty,
  if◌then◌else◌, ◌≡◌, refl, sym, ap, ◌∙◌, inl, inr, if_pos, if_neg, Option-cases, if_keeps,
}
use llm_d_inference_payload.Prelude.Map
use llm_d_inference_payload.Prelude.Map.{Map, get-put}
use llm_d_inference_payload.Json.{as_string}
use llm_d_inference_payload.Message.{body_field}
use llm_d_inference_payload.DataLayer.{Attribute}
use llm_d_inference_payload.DataLayer.Attributes.{Attributes, put_attribute}
use llm_d_inference_payload.DataLayer.Datastore.{Datastore, get_or_create_model, update_model}
use llm_d_inference_payload.DataLayer.Datastore.Laws.{
  attributes_of, or_empty, attributes_of-update_model,
}
use llm_d_inference_payload.Framework.{InferenceResponse}
use llm_d_inference_payload.Handlers.{Event, request_event, response_event}
use llm_d_inference_payload.RequestCost.{
  CostDigests, CostExtractor, Accumulator, Batch, cost_digest_attribute_key, lookup_token_prices,
  cached_prices, get_or_create_accumulator, reset_window, add_sample, sample_response, sample_event,
  sample_events, flush, flush_all, extract_costs, extract_token_counts,
}

-- the attributes of a model, none if the store does not hold it
abbrev pub attributes_or_none : {F : Type 0} → Bytes → Datastore F → Attributes F
attributes_or_none name ds = or_empty (attributes_of name ds)

get_or_create_model_keeps :
    {F : Type 0} (model name : Bytes) (ds : Datastore F)
    → attributes_or_none name (get_or_create_model model ds).1 ≡ attributes_or_none name ds
unfolding get_or_create_model
get_or_create_model_keeps {F} model name ds =
    elim (Option-cases (Map.get bytes_dec model ds.models)) [
      | inr (m, e) ↦ rw (e, get_or_create_model) refl
      | inl e ↦
          rw (e, get_or_create_model)
            (ap or_empty (get-put {V = Attributes F} bytes_dec model name [] ds.models)
              ∙ elim (bytes_dec model name) [
                | yes p ↦
                    ap or_empty (if_pos (bytes_dec model name) p _ _)
                    ∙ sym (ap or_empty (ap (λ k. Map.get bytes_dec k ds.models) (sym p) ∙ e))
                | no p ↦ ap or_empty (if_neg (bytes_dec model name) p _ _)
              ])
    ]

module _ ⦃N : Float64⦄ (K : CostDigests N.F) where
  abbrev pub Keeps : Bytes → Batch N.F K.Digest → Batch N.F K.Digest → Type 0
  Keeps name b b' = attributes_or_none name b'.ds ≡ attributes_or_none name b.ds

  cached_prices-Keeps :
      (model name : Bytes) (b : Batch N.F K.Digest) → Keeps name b (cached_prices K model b).1
  unfolding cached_prices lookup_token_prices
  cached_prices-Keeps model name b =
      elim (Option-cases (Map.get bytes_dec model b.token_prices_cache)) [
        | inr (tp, e) ↦ rw (e, cached_prices) refl
        | inl e ↦ elim (Option-cases (lookup_token_prices K model b.ds).0) [
          | inl q ↦ rw (e, q, cached_prices) (get_or_create_model_keeps model name b.ds)
          | inr (tp, q) ↦ rw (e, q, cached_prices) (get_or_create_model_keeps model name b.ds)
        ]
      ]

module _ ⦃N : Float64⦄ (K : CostDigests N.F) (e : CostExtractor N.F) (now : ℕ) where
  add_sample-Keeps :
      (model name : Bytes) (cost : N.F) (b : Batch N.F K.Digest)
      → Keeps K name b (add_sample K e now model cost b)
  unfolding add_sample
  add_sample-Keeps model name cost b =
      elim (Option-cases (get_or_create_accumulator K e now (Map.get bytes_dec model b.state))) [
        | inl q ↦ rw (q, add_sample) refl
        | inr (acc, q) ↦ elim (Option-cases (K.add cost (reset_window K e now acc).digest)) [
          | inl r ↦ rw (q, r, add_sample) refl
          | inr (d, r) ↦ rw (q, r, add_sample) refl
        ]
      ]

  module _ ⦃S : StringSet⦄ where
    sample_response-Keeps :
        (model name : Bytes) (response : InferenceResponse) (b : Batch N.F K.Digest)
        → Keeps K name b (sample_response K e now model response b)
    unfolding sample_response
    sample_response-Keeps model name response b =
        let kept = cached_prices-Keeps K model name b in
        elim (Option-cases (cached_prices K model b).0) [
          | inl q ↦ rw (q, sample_response) kept
          | inr (tp, q) ↦ elim (Option-cases (extract_token_counts K response)) [
            | inl r ↦ rw (q, r, sample_response) kept
            | inr (counts, r) ↦
                rw (q, r, sample_response)
                  (add_sample-Keeps model name _ (cached_prices K model b).1 ∙ kept)
          ]
        ]

    sample_named-Keeps :
        (model name : Bytes) (response : InferenceResponse) (b : Batch N.F K.Digest)
        → Keeps K name b (if is_empty model then b else sample_response K e now model response b)
    sample_named-Keeps [] name response b = refl
    sample_named-Keeps (c ∷ model) name response b =
        sample_response-Keeps (c ∷ model) name response b

    sample_event-Keeps :
        (name : Bytes) (ev : Event) (b : Batch N.F K.Digest)
        → Keeps K name b (sample_event K e now ev b)
    unfolding sample_event
    sample_event-Keeps name (request_event request) b = refl
    sample_event-Keeps name (response_event request response) b =
        elim (Option-cases (as_string (body_field request (codes "model")))) [
          | inl q ↦ rw (q, sample_event) refl
          | inr (model, q) ↦ rw (q, sample_event) (sample_named-Keeps model name response b)
        ]

    sample_events-Keeps :
        (name : Bytes) (events : List Event) (b : Batch N.F K.Digest)
        → Keeps K name b (sample_events K e now events b)
    unfolding sample_events
    sample_events-Keeps name [] b = refl
    sample_events-Keeps name (ev ∷ events) b =
        sample_events-Keeps name events (sample_event K e now ev b) ∙ sample_event-Keeps name ev b

  -- an attribute of a model, and one under a key that is not the digest's
  abbrev pub attribute_at : Bytes → Bytes → Datastore N.F → Option (Attribute N.F)
  attribute_at name key ds = Map.get bytes_dec key (attributes_or_none name ds)

  attribute_at-update_model :
      (model name key : Bytes) (v : Attribute N.F) (ds : Datastore N.F)
      → (cost_digest_attribute_key ≡ key → ⊥)
      → attribute_at name key
          (update_model model (put_attribute cost_digest_attribute_key (some v)) ds)
        ≡ attribute_at name key ds
  unfolding put_attribute
  attribute_at-update_model model name key v ds n = elim (bytes_dec model name) [
    | no p ↦
        ap (λ z. Map.get bytes_dec key (or_empty z))
          (attributes_of-update_model model name _ ds ∙ if_neg (bytes_dec model name) p _ _)
    | yes p ↦
        ap (λ z. Map.get bytes_dec key (or_empty z))
          (attributes_of-update_model model name _ ds ∙ if_pos (bytes_dec model name) p _ _)
        ∙ get-put bytes_dec cost_digest_attribute_key key v _
        ∙ if_neg (bytes_dec cost_digest_attribute_key key) n _ _
        ∙ ap (λ z. attribute_at z key ds) p
  ]

  flush_keeps :
      (model name key : Bytes) (acc : Option (Accumulator K.Digest)) (b : Batch N.F K.Digest)
      → (cost_digest_attribute_key ≡ key → ⊥)
      → attribute_at name key (flush K e now model acc b).ds ≡ attribute_at name key b.ds
  unfolding flush
  flush_keeps model name key none b n = refl
  flush_keeps model name key (some acc) b n =
      if_keeps
        (λ (b' : Batch N.F K.Digest). attribute_at name key b'.ds ≡ attribute_at name key b.ds) _
        refl (attribute_at-update_model model name key _ b.ds n)

  flush_all_keeps :
      (name key : Bytes) (updated : Map Bytes (Unit {0})) (b : Batch N.F K.Digest)
      → (cost_digest_attribute_key ≡ key → ⊥)
      → attribute_at name key (flush_all K e now updated b).ds ≡ attribute_at name key b.ds
  unfolding flush_all
  flush_all_keeps name key [] b n = refl
  flush_all_keeps name key ((model, _) ∷ updated) b n =
      flush_all_keeps name key updated (flush K e now model (Map.get bytes_dec model b.state) b) n
      ∙ flush_keeps model name key (Map.get bytes_dec model b.state) b n

  -- Collecting the costs of any events changes no attribute of any model but the published digest,
  -- whatever the digests do and whether their operations fail; a model that only the events name
  -- has no other attribute.
  pub attribute_at-extract_costs :
      ⦃S : StringSet⦄
      → (name key : Bytes) (events : List Event) (state : Map Bytes (Accumulator K.Digest))
        (ds : Datastore N.F)
      → (cost_digest_attribute_key ≡ key → ⊥)
      → attribute_at name key (extract_costs K e now events (state, ds)).1
        ≡ attribute_at name key ds
  unfolding extract_costs
  attribute_at-extract_costs name key events state ds n =
      let start : Batch N.F K.Digest = record {
        state = state;
        ds = ds;
        token_prices_cache = [];
        updated = [];
      } in
      flush_all_keeps name key (sample_events K e now events start).updated
        (sample_events K e now events start) n
      ∙ ap (Map.get bytes_dec key) (sample_events-Keeps name events start)
