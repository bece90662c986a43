-- ===== src/Config/Placing.antt =====
-- pkg/config/loader/configloader.go, `buildPostProcessors`: where the plugins go.
use llm_d_inference_payload.Prelude.{
  Bytes, StringSet, Float64, List, [], ◌∷◌, ◌++◌, Option, none, some, All, ◌≡◌, refl, sym, ap, ◌∙◌,
  ◌⊎◌, inl, inr, append-nil, append_assoc, arith, Option-cases,
}
use llm_d_inference_payload.Errors.{GoError, Result, ok, err}
use llm_d_inference_payload.Framework.{ResponseProcessor}
use llm_d_inference_payload.Config.{
  Instance, to_list, Lists, place_parts, place, place_all, build_post_processors,
}

module _ ⦃S : StringSet⦄ ⦃N : Float64⦄ {W : Type 0} where
  abbrev pub body_part : Option (Instance W) → List (ResponseProcessor W)
  body_part none = []
  body_part (some p) = to_list p.response_processor

  abbrev pub headers_part : Option (Instance W) → List (ResponseProcessor W)
  headers_part none = []
  headers_part (some p) = to_list p.response_headers_processor

  -- the plugin is there and processes response bodies or headers
  abbrev pub Placed : Option (Instance W) → Type 0
  Placed none = ⊥
  Placed (some p) = (p.response_processor ≡ none → p.response_headers_processor ≡ none → ⊥)

module _ ⦃S : StringSet⦄ ⦃N : Float64⦄ {W : Type 0} (plugin : Bytes → Option (Instance W)) where
  abbrev pub all_bodies : List Bytes → List (ResponseProcessor W)
  all_bodies [] = []
  all_bodies (ref ∷ refs) = body_part (plugin ref) ++ all_bodies refs

  abbrev pub all_headers : List Bytes → List (ResponseProcessor W)
  all_headers [] = []
  all_headers (ref ∷ refs) = headers_part (plugin ref) ++ all_headers refs

  -- what a round does, for a plugin that is looked up or not
  abbrev Round : Option (Instance W) → Lists plugin → Result (Lists plugin) → Type 0
  Round p (bodies, headers) x =
      (Placed p × (x ≡ ok (bodies ++ body_part p, headers ++ headers_part p)))
      ⊎ ((Placed p → ⊥) × ((e : GoError) × (x ≡ err e)))

  place_parts-lists :
      (ref : Bytes) (b h : Option (ResponseProcessor W))
      (bodies headers : List (ResponseProcessor W))
      → ((b ≡ none → h ≡ none → ⊥)
          × (place_parts plugin ref b h (bodies, headers)
              ≡ ok (bodies ++ to_list b, headers ++ to_list h)))
        ⊎ (((b ≡ none → h ≡ none → ⊥) → ⊥)
            × ((e : GoError) × (place_parts plugin ref b h (bodies, headers) ≡ err e)))
  unfolding place_parts
  place_parts-lists ref b (some h) bodies headers = inl (λ x y. absurd (ground arith), refl)
  place_parts-lists ref (some b) none bodies headers = inl (
    λ x y. absurd (ground arith),
    ap (λ z. ok (bodies ++ (b ∷ []), z)) (sym (append-nil headers)),
  )
  place_parts-lists ref none none bodies headers = inr (λ k. k refl refl, (_, refl))

  place-Round :
      (ref : Bytes) (lists : Lists plugin) → Round (plugin ref) lists (place plugin ref lists)
  unfolding place
  place-Round ref (bodies, headers) = elim (Option-cases (plugin ref)) [
    | inl e ↦ rw (e, place) (inr (λ x. x, (_, refl)))
    | inr (p, e) ↦
        rw (e, place)
          (place_parts-lists ref p.response_processor p.response_headers_processor bodies headers)
  ]

  place_all-ok :
      (ref : Bytes) (refs : List Bytes) (lists lists' : Lists plugin)
      → place plugin ref lists ≡ ok lists'
      → place_all plugin (ref ∷ refs) lists ≡ place_all plugin refs lists'
  unfolding place_all
  place_all-ok ref refs lists lists' e = rw (e, place_all) refl

  place_all-err :
      (ref : Bytes) (refs : List Bytes) (lists : Lists plugin) (e : GoError)
      → place plugin ref lists ≡ err e
      → place_all plugin (ref ∷ refs) lists ≡ err e
  unfolding place_all
  place_all-err ref refs lists e q = rw (q, place_all) refl

  place_all-lists :
      (refs : List Bytes) (bodies headers : List (ResponseProcessor W))
      → (All (λ ref. Placed (plugin ref)) refs
          × (place_all plugin refs (bodies, headers)
              ≡ ok (bodies ++ all_bodies refs, headers ++ all_headers refs)))
        ⊎ ((All (λ ref. Placed (plugin ref)) refs → ⊥)
            × ((e : GoError) × (place_all plugin refs (bodies, headers) ≡ err e)))
  unfolding place_all
  place_all-lists [] bodies headers = inl (tt, rw (append-nil bodies, append-nil headers) refl)
  place_all-lists (ref ∷ refs) bodies headers = elim (place-Round ref (bodies, headers)) [
    | inr (n, (e, q)) ↦ inr (λ a. n a.0, (e, place_all-err ref refs (bodies, headers) e q))
    | inl (p, q) ↦
        let go = place_all-ok ref refs (bodies, headers) _ q in
        elim (place_all-lists refs (bodies ++ body_part (plugin ref))
          (headers ++ headers_part (plugin ref))) [
            | inr (n, (e, r)) ↦ inr (λ a. n a.1, (e, go ∙ r))
            | inl (a, r) ↦ inl (
              (p, a),
              go
                  ∙ r
                  ∙ rw
                      (
                        append_assoc bodies (body_part (plugin ref)) (all_bodies refs),
                        append_assoc headers (headers_part (plugin ref)) (all_headers refs),
                      )
                      refl,
            )
          ]
  ]

  -- The post-processors are built exactly if every referenced plugin is there and processes
  -- response bodies or headers. Then the body processors and the headers processors are those of
  -- the plugins, each in the order of the references, and a plugin that is both is in both lists;
  -- otherwise building them fails with an error.
  pub build_post_processors-lists :
      (refs : List Bytes)
      → (All (λ ref. Placed (plugin ref)) refs
          × (build_post_processors plugin refs ≡ ok (all_bodies refs, all_headers refs)))
        ⊎ ((All (λ ref. Placed (plugin ref)) refs → ⊥)
            × ((e : GoError) × (build_post_processors plugin refs ≡ err e)))
  unfolding build_post_processors
  build_post_processors-lists refs = place_all-lists refs [] []
