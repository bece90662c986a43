-- ===== src/RequestMetadata/Published.antt =====
-- pkg/framework/plugins/datalayer/requestmetadata/plugin.go, `Extract`: the counts of the extractor
-- and those of the data store.
use llm_d_inference_payload.Prelude.{
  Bytes, bytes_dec, StringSet, Float64, ℤ, List, [], ◌∷◌, Option, none, some, ◌≡◌, refl, sym, ap,
  ◌∙◌, ◌⊎◌, inl, inr, ite, if_pos, if_neg, arith, All, All-weaken,
}
use llm_d_inference_payload.Prelude.Map
use llm_d_inference_payload.Prelude.Map.{
  Map, get-put, get-put_self, NodupKeys, put-NodupKeys, get_self,
}
use llm_d_inference_payload.DataLayer.{Attribute, request_count}
use llm_d_inference_payload.DataLayer.Attributes.{put_attribute}
use llm_d_inference_payload.DataLayer.Datastore.{Datastore, update_model}
use llm_d_inference_payload.DataLayer.Datastore.Laws.{
  attributes_of, or_empty, attributes_of-update_model,
}
use llm_d_inference_payload.Handlers.{Event, request_event, response_event}
use llm_d_inference_payload.RequestMetadata.{
  RequestMetadataCount, Counts, count_for, count_event, count_events, publish, extract,
  request_metadata_attribute_key,
}

-- a name that the events so far have no change for, or whose changed count is that of the counters
abbrev Changed : Counts → Bytes → Counts × Counts → Type 0
Changed before name (counters, updated) =
    (Map.get bytes_dec name updated ≡ Map.get bytes_dec name counters)
    ⊎ ((Map.get bytes_dec name updated ≡ none)
        × (Map.get bytes_dec name counters ≡ Map.get bytes_dec name before))

put-Changed :
    (before : Counts) (name model : Bytes) (c : RequestMetadataCount) (counters updated : Counts)
    → Changed before name (counters, updated)
    → Changed before name (Map.put bytes_dec model c counters, Map.put bytes_dec model c updated)
put-Changed before name model c counters updated h = elim (bytes_dec model name) [
  | yes p ↦ inl (
      get-put bytes_dec model name c updated
      ∙ if_pos (bytes_dec model name) p _ _
      ∙ sym (get-put bytes_dec model name c counters ∙ if_pos (bytes_dec model name) p _ _))
  | no p ↦
      rw
        (
          get-put bytes_dec model name c updated ∙ if_neg (bytes_dec model name) p _ _,
          get-put bytes_dec model name c counters ∙ if_neg (bytes_dec model name) p _ _,
        )
        h
]

count_for-Changed :
    (before : Counts) (name model : Bytes) (change : RequestMetadataCount → RequestMetadataCount)
    (s : Counts × Counts)
    → Changed before name s
    → Changed before name (count_for model change s)
unfolding count_for
count_for-Changed before name [] change (counters, updated) h = h
count_for-Changed before name (c ∷ model) change (counters, updated) h =
    put-Changed before name (c ∷ model) _ counters updated h

empty_get : (name : Bytes) → Map.get {V = RequestMetadataCount} bytes_dec name [] ≡ none
unfolding Map.get
empty_get name = refl

count_for-NodupKeys :
    (model : Bytes) (change : RequestMetadataCount → RequestMetadataCount) (s : Counts × Counts)
    → NodupKeys bytes_dec s.1
    → NodupKeys bytes_dec (count_for model change s).1
unfolding count_for
count_for-NodupKeys [] change (counters, updated) h = h
count_for-NodupKeys (c ∷ model) change (counters, updated) h =
    put-NodupKeys bytes_dec (c ∷ model) _ updated h

module _ ⦃S : StringSet⦄ ⦃N : Float64⦄ (truncate : N.F → ℤ) where
  count_events-Changed :
      (before : Counts) (name : Bytes) (events : List Event) (s : Counts × Counts)
      → Changed before name s
      → Changed before name (count_events truncate events s)
  unfolding count_events count_event
  count_events-Changed before name [] s h = h
  count_events-Changed before name (request_event r ∷ events) s h =
      count_events-Changed before name events _ (count_for-Changed before name _ _ s h)
  count_events-Changed before name (response_event r a ∷ events) s h =
      count_events-Changed before name events _ (count_for-Changed before name _ _ s h)

  count_events-NodupKeys :
      (events : List Event) (s : Counts × Counts)
      → NodupKeys bytes_dec s.1
      → NodupKeys bytes_dec (count_events truncate events s).1
  unfolding count_events count_event
  count_events-NodupKeys [] s h = h
  count_events-NodupKeys (request_event r ∷ events) s h =
      count_events-NodupKeys events _ (count_for-NodupKeys _ _ s h)
  count_events-NodupKeys (response_event r a ∷ events) s h =
      count_events-NodupKeys events _ (count_for-NodupKeys _ _ s h)

-- a count that the counters have, in a list of changes without repeated names
only_count :
    (name : Bytes) (c : RequestMetadataCount) (updated : Counts)
    → NodupKeys bytes_dec updated
    → (Map.get bytes_dec name updated ≡ some c) ⊎ (Map.get bytes_dec name updated ≡ none)
    → All (λ e. e.0 ≡ name → e.1 ≡ c) updated
only_count name c updated d h =
    let only : (e : Bytes × RequestMetadataCount)
        → Map.get bytes_dec e.0 updated ≡ some e.1
        → e.0 ≡ name
        → e.1 ≡ c =
      λ e q p.
        let found : Map.get bytes_dec name updated ≡ some e.1 = rw (← p) q in
        (elim h [ inl k ↦ cc | inr k ↦ absurd (ground arith) ]) in
    All-weaken only updated (get_self bytes_dec updated d)

module _ {F : Type 0} where
  -- the attribute that the extractor writes, of a model
  abbrev pub count_attribute : Bytes → Datastore F → Option (Attribute F)
  count_attribute name ds =
      Map.get bytes_dec request_metadata_attribute_key (or_empty (attributes_of name ds))

  -- every count of the extractor is in the data store
  abbrev pub IsPublished : Counts → Datastore F → Type 0
  IsPublished counters ds =
      (name : Bytes) (c : RequestMetadataCount)
      → Map.get bytes_dec name counters ≡ some c
      → count_attribute name ds ≡ some (request_count c.requests c.tokens)

  count_attribute_put :
      (model name : Bytes) (v : Attribute F) (ds : Datastore F)
      → count_attribute name
          (update_model model (put_attribute request_metadata_attribute_key (some v)) ds)
        ≡ ite (bytes_dec model name) (some v) (count_attribute name ds)
  unfolding put_attribute
  count_attribute_put model name v ds = elim (bytes_dec model name) [
    | yes p ↦
        ap (λ z. Map.get bytes_dec request_metadata_attribute_key (or_empty z))
          (attributes_of-update_model model name _ ds ∙ if_pos (bytes_dec model name) p _ _)
        ∙ get-put_self bytes_dec request_metadata_attribute_key v _
        ∙ sym (if_pos (bytes_dec model name) p _ _)
    | no p ↦
        ap (λ z. Map.get bytes_dec request_metadata_attribute_key (or_empty z))
          (attributes_of-update_model model name _ ds ∙ if_neg (bytes_dec model name) p _ _)
        ∙ sym (if_neg (bytes_dec model name) p _ _)
  ]

  -- the loop over the changed counts, for a name with at most one count among them
  publish_one :
      (name : Bytes) (c : RequestMetadataCount) (updated : Counts) (ds : Datastore F)
      → All (λ e. e.0 ≡ name → e.1 ≡ c) updated
      → (count_attribute name (publish updated ds) ≡ some (request_count c.requests c.tokens))
        ⊎ ((Map.get bytes_dec name updated ≡ none)
            × (count_attribute name (publish updated ds) ≡ count_attribute name ds))
  unfolding publish Map.get
  publish_one name c [] ds h = inr (refl, refl)
  publish_one name c ((model, d) ∷ updated) ds h = elim (publish_one name c updated _ h.1) [
    | inl e ↦ inl e
    | inr (n, e) ↦ elim (bytes_dec model name) [
      | yes p ↦ inl (
          e
          ∙ count_attribute_put model name _ ds
          ∙ if_pos (bytes_dec model name) p _ _
          ∙ ap (λ (z : RequestMetadataCount). some (request_count z.requests z.tokens)) (h.0 p))
      | no p ↦ inr (
        if_neg (bytes_dec model name) p _ _ ∙ n,
        e ∙ count_attribute_put model name _ ds ∙ if_neg (bytes_dec model name) p _ _,
      )
    ]
  ]

module _ ⦃S : StringSet⦄ ⦃N : Float64⦄ (truncate : N.F → ℤ) where
  -- If every count of the extractor stands in the data store, this is so after any events too: the
  -- model of each count has it as its `request-metadata` attribute, whether the events changed the
  -- count or not.
  pub extract-IsPublished :
      (events : List Event) (counters : Counts) (ds : Datastore N.F)
      → IsPublished counters ds
      → IsPublished
          (extract truncate events (counters, ds)).0
          (extract truncate events (counters, ds)).1
  unfolding extract
  extract-IsPublished events counters ds h name c e =
      let s = count_events truncate events (counters, []) in
      let nodup = count_events-NodupKeys truncate events (counters, []) tt in
      elim (count_events-Changed truncate counters name events (counters, [])
        (inr (empty_get name, refl))) [
          | inl same ↦
              elim (publish_one name c s.1 ds (only_count name c s.1 nodup (inl (same ∙ e)))) [
                | inl p ↦ p
                | inr (n, k) ↦ absurd (ground arith)
              ]
          | inr (n, same) ↦ elim (publish_one name c s.1 ds (only_count name c s.1 nodup (inr n))) [
            | inl p ↦ p
            | inr (_, k) ↦ k ∙ h name c (sym same ∙ e)
          ]
        ]
