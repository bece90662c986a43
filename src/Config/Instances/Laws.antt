-- ===== src/Config/Instances/Laws.antt =====
-- pkg/config/loader/configloader.go, `instantiatePlugins`: the plugins of a configuration.
use llm_d_inference_payload.Prelude.{
  Bytes, bytes_dec, StringSet, Float64, true, false, List, [], ◌∷◌, Option, none, some, is_empty,
  All, ◌≡◌, refl, sym, ap, subst, ◌∙◌, if_pos, if_neg, arith,
}
use llm_d_inference_payload.Prelude.Map
use llm_d_inference_payload.Prelude.Map.{Map, get-put, get-put_self}
use llm_d_inference_payload.Errors.{Result, ok, err, panic}
use llm_d_inference_payload.Errors.Cases.{ok_inj, bind_ok, guard_ok}
use llm_d_inference_payload.Config.{Instance}
use llm_d_inference_payload.Config.Instances.{
  PluginSpec, created, create_plugin, instantiate_plugin, instantiate_loop, instantiate_plugins,
}

module _ ⦃S : StringSet⦄ ⦃N : Float64⦄ {W : Type 0} where
  created-ok :
      (spec : PluginSpec) (r : Result (Instance W)) (p : Instance W)
      → created spec r ≡ ok p
      → r ≡ ok p
  unfolding created
  created-ok spec (ok p') p h = h
  created-ok spec (err e) p h = absurd (ground arith)
  created-ok spec panic p h = absurd (ground arith)

  create_plugin-ok :
      (spec : PluginSpec) (o : Option (Bytes → Bytes → Result (Instance W))) (p : Instance W)
      → create_plugin spec o ≡ ok p
      → (f : Bytes → Bytes → Result (Instance W)) × (o ≡ some f)
        × (f spec.name spec.parameters ≡ ok p)
  unfolding create_plugin
  create_plugin-ok spec none p h = absurd (ground arith)
  create_plugin-ok spec (some f) p h = (f, refl, created-ok spec (f spec.name spec.parameters) p h)

module _ ⦃S : StringSet⦄ ⦃N : Float64⦄ {W : Type 0}
    (registry : Bytes → Option (Bytes → Bytes → Result (Instance W))) where
  -- the handle has the plugin that the factory of the specification's type makes
  abbrev pub IsMade : Map Bytes (Instance W) → PluginSpec → Type 0
  IsMade handle spec =
      (f : Bytes → Bytes → Result (Instance W)) × (registry spec.type_name ≡ some f)
      × ((p : Instance W) × (f spec.name spec.parameters ≡ ok p)
          × (Map.get bytes_dec spec.name handle ≡ some p))

  -- what a round that succeeds does
  abbrev Round :
      PluginSpec → S.Set → Map Bytes (Instance W) → S.Set × Map Bytes (Instance W) → Type 0
  Round spec names handle s =
      (S.has names spec.name ≡ false)
      × ((f : Bytes → Bytes → Result (Instance W)) × (registry spec.type_name ≡ some f)
          × ((p : Instance W) × (f spec.name spec.parameters ≡ ok p)
              × (s ≡ (S.insert spec.name names, Map.put bytes_dec spec.name p handle))))

  instantiate_plugin-Round :
      (spec : PluginSpec) (names : S.Set) (handle : Map Bytes (Instance W))
      (s : S.Set × Map Bytes (Instance W))
      → instantiate_plugin registry spec (names, handle) ≡ ok s
      → Round spec names handle s
  unfolding instantiate_plugin
  instantiate_plugin-Round spec names handle s h =
      let (_, typed) = guard_ok (is_empty spec.type_name) _ _ s h in
      let (fresh, rest) = guard_ok (S.has names spec.name) _ _ s typed in
      let (p, made, same) = bind_ok (create_plugin spec (registry spec.type_name)) _ s rest in
      let (f, found, built) = create_plugin-ok spec (registry spec.type_name) p made in
      (fresh, (f, found, (p, built, sym (ok_inj same))))

  -- the rounds after the names are taken leave those names' plugins
  instantiate_loop_keeps :
      (k : Bytes) (specs : List PluginSpec) (names : S.Set) (handle : Map Bytes (Instance W))
      (s : S.Set × Map Bytes (Instance W))
      → S.has names k ≡ true
      → instantiate_loop registry specs (names, handle) ≡ ok s
      → Map.get bytes_dec k s.1 ≡ Map.get bytes_dec k handle
  unfolding instantiate_loop
  instantiate_loop_keeps k [] names handle s t h =
      ap (λ z. Map.get bytes_dec k z.1) (sym (ok_inj h))
  instantiate_loop_keeps k (spec ∷ specs) names handle s t h =
      let (s', made, rest) = bind_ok (instantiate_plugin registry spec (names, handle)) _ s h in
      let (fresh, (f, found, (p, built, same))) =
        instantiate_plugin-Round spec names handle s' made in
      let other : spec.name ≡ k → ⊥ =
        λ q. let taken : S.has names spec.name ≡ true = rw q t in absurd (ground arith) in
      instantiate_loop_keeps k specs (S.insert spec.name names)
        (Map.put bytes_dec spec.name p handle) s
        (S.has-insert spec.name k names ∙ if_neg (bytes_dec spec.name k) other _ _ ∙ t)
        (subst (λ z. instantiate_loop registry specs z ≡ ok s) same rest)
      ∙ get-put bytes_dec spec.name k p handle
      ∙ if_neg (bytes_dec spec.name k) other _ _

  instantiate_loop-IsMade :
      (specs : List PluginSpec) (names : S.Set) (handle : Map Bytes (Instance W))
      (s : S.Set × Map Bytes (Instance W))
      → instantiate_loop registry specs (names, handle) ≡ ok s
      → All (IsMade s.1) specs
  unfolding instantiate_loop
  instantiate_loop-IsMade [] names handle s h = tt
  instantiate_loop-IsMade (spec ∷ specs) names handle s h =
      let (s', made, rest) = bind_ok (instantiate_plugin registry spec (names, handle)) _ s h in
      let (fresh, (f, found, (p, built, same))) =
        instantiate_plugin-Round spec names handle s' made in
      let later : instantiate_loop registry specs
            (S.insert spec.name names, Map.put bytes_dec spec.name p handle)
          ≡ ok s =
        subst (λ z. instantiate_loop registry specs z ≡ ok s) same rest in
      (
        (
          f,
          found,
          (
            p,
            built,
            instantiate_loop_keeps spec.name specs _ _ s
                  (S.has-insert spec.name spec.name names
                    ∙ if_pos (bytes_dec spec.name spec.name) refl _ _)
                  later
                ∙ get-put_self bytes_dec spec.name p handle,
          ),
        ),
        instantiate_loop-IsMade specs _ _ s later,
      )

  -- If the plugins of a configuration are instantiated, then under the name of every specification
  -- the handle has the plugin that the factory registered for its type makes from its name and its
  -- parameters; no later specification replaces it.
  pub instantiate_plugins-IsMade :
      (specs : List PluginSpec) (handle : Map Bytes (Instance W))
      → instantiate_plugins registry specs ≡ ok handle
      → All (IsMade handle) specs
  unfolding instantiate_plugins
  instantiate_plugins-IsMade [] handle h = tt
  instantiate_plugins-IsMade (spec ∷ specs) handle h =
      let (s, made, same) =
        bind_ok (instantiate_loop registry (spec ∷ specs) (S.new, [])) _ handle h in
      subst (λ z. All (IsMade z) (spec ∷ specs)) (ok_inj same)
        (instantiate_loop-IsMade (spec ∷ specs) S.new [] s made)
