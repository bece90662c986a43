-- ===== src/Config/Building.antt =====
-- pkg/config/loader/configloader.go, `buildPreProcessors`: when it succeeds, and with what.
use llm_d_inference_payload.Prelude.{
  Bytes, StringSet, Float64, List, [], ◌∷◌, ◌++◌, Option, none, some, All, ◌≡◌, ◌≢◌, refl, ap, ◌∙◌,
  ◌⊎◌, inl, inr, arith, Option-cases,
}
use llm_d_inference_payload.Errors.{GoError, Result, ok, err}
use llm_d_inference_payload.Framework.{RequestProcessor}
use llm_d_inference_payload.Config.{Instance, to_list, put_pre_processor, build_pre_processors}

module _ ⦃S : StringSet⦄ ⦃N : Float64⦄ {W : Type 0} where
  abbrev pub request_part : Option (Instance W) → Option (RequestProcessor W)
  request_part none = none
  request_part (some p) = p.request_processor

module _ ⦃S : StringSet⦄ ⦃N : Float64⦄ {W : Type 0} (plugin : Bytes → Option (Instance W)) where
  abbrev pub all_requests : List Bytes → List (RequestProcessor W)
  all_requests [] = []
  all_requests (ref ∷ refs) = to_list (request_part (plugin ref)) ++ all_requests refs

  -- what the references give, if they give request processors and if not
  abbrev Built : List Bytes → Result (List (RequestProcessor W)) → Type 0
  Built refs x =
      (All (λ ref. request_part (plugin ref) ≢ none) refs × (x ≡ ok (all_requests refs)))
      ⊎ ((All (λ ref. request_part (plugin ref) ≢ none) refs → ⊥) × ((e : GoError) × (x ≡ err e)))

  -- what a round does, for a plugin that is looked up or not, if the later ones succeed
  put_ok :
      (ref : Bytes) (p : Option (Instance W)) (xs : List (RequestProcessor W))
      → ((request_part p ≢ none)
          × (put_pre_processor ref p (ok xs) ≡ ok (to_list (request_part p) ++ xs)))
        ⊎ ((request_part p ≡ none) × ((e : GoError) × (put_pre_processor ref p (ok xs) ≡ err e)))
  unfolding put_pre_processor
  put_ok ref none xs = inr (refl, (_, refl))
  put_ok ref (some p) xs = elim (Option-cases p.request_processor) [
    | inl e ↦ inr (e, rw (e, put_pre_processor) (_, refl))
    | inr (x, e) ↦ inl (λ n. absurd (ground arith), rw e refl)
  ]

  -- and if one of the later ones fails
  put_err :
      (ref : Bytes) (p : Option (Instance W)) (e : GoError)
      → (x : GoError) × (put_pre_processor ref p (err e) ≡ err x)
  unfolding put_pre_processor
  put_err ref none e = (_, refl)
  put_err ref (some p) e = elim (Option-cases p.request_processor) [
    | inl q ↦ rw (q, put_pre_processor) (_, refl)
    | inr (x, q) ↦ rw (q, put_pre_processor) (_, refl)
  ]

  -- The pre-processors are built exactly if every referenced plugin is there and processes
  -- requests. Then they are those of the plugins, in the order of the references; otherwise
  -- building them fails with an error.
  pub build_pre_processors-list :
      (refs : List Bytes)
      → (All (λ ref. request_part (plugin ref) ≢ none) refs
          × (build_pre_processors plugin refs ≡ ok (all_requests refs)))
        ⊎ ((All (λ ref. request_part (plugin ref) ≢ none) refs → ⊥)
            × ((e : GoError) × (build_pre_processors plugin refs ≡ err e)))
  unfolding build_pre_processors
  build_pre_processors-list [] = inl (tt, refl)
  build_pre_processors-list (ref ∷ refs) = elim (build_pre_processors-list refs) [
    | inr (n, (e, q)) ↦
        let (x, r) = put_err ref (plugin ref) e in
        inr (λ a. n a.1, (x, ap (put_pre_processor ref (plugin ref)) q ∙ r))
    | inl (a, q) ↦
        let same = ap (put_pre_processor ref (plugin ref)) q in
        elim (put_ok ref (plugin ref) (all_requests refs)) [
          | inl (h, r) ↦ inl ((h, a), same ∙ r)
          | inr (h, (x, r)) ↦ inr (λ b. b.0 h, (x, same ∙ r))
        ]
  ]
