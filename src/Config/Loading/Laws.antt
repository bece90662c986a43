-- ===== src/Config/Loading/Laws.antt =====
-- pkg/config/loader/configloader.go, `LoadConfiguration`: what a configuration that loads is.
use llm_d_inference_payload.Prelude.{
  Bytes, bytes_dec, StringSet, Float64, true, false, not, ◌||◌, List, [], ◌∷◌, Option, is_empty,
  All, All-weaken, ◌≡◌, refl, sym, ap, ◌∙◌, inl, inr, arith,
}
use llm_d_inference_payload.Prelude.Map
use llm_d_inference_payload.Prelude.Map.{Map}
use llm_d_inference_payload.Errors.{Result, ok}
use llm_d_inference_payload.Errors.Cases.{ok_inj, bind_ok, unless_ok}
use llm_d_inference_payload.Framework.{Profile, Picker, ResponseProcessor}
use llm_d_inference_payload.Config.{Instance, build_pre_processors, build_post_processors}
use llm_d_inference_payload.Config.Instances.{
  PayloadProcessorConfig, instantiate_plugins, apply_plugin_defaults,
}
use llm_d_inference_payload.Config.Profiles.{BuiltProfile, build_profiles}
use llm_d_inference_payload.Config.Profiles.Laws.{IsExclusive, build_profiles-IsExclusive}
use llm_d_inference_payload.Config.Loading.{
  Loaded, load_raw_configuration, force_buffering, guard_buffering, build_datalayer_sources,
  build_model_selector, build_configuration, load_configuration,
}

nonempty_nil : {A : Type 0} (xs : List A) → is_empty xs ≡ true → xs ≡ []
nonempty_nil [] h = refl
nonempty_nil (x ∷ xs) h = absurd (ground arith)

module _ ⦃S : StringSet⦄ ⦃N : Float64⦄ {W : Type 0} where
  -- A profile buffers its responses exactly if it or the configuration has processors of response
  -- bodies, and a profile that buffers has no processors of chunks.
  abbrev pub IsConsistent : List (ResponseProcessor W) → Profile W → Type 0
  IsConsistent posts p =
      (p.needs_response_buffering ≡ (not (is_empty p.response_plugins) || not (is_empty posts)))
      × (p.needs_response_buffering ≡ true → p.response_chunk_processors ≡ [])

  IsExclusive-IsConsistent : (p : Profile W) → IsExclusive p → IsConsistent [] p
  IsExclusive-IsConsistent p (inl h, k) = (
    ground arith,
    λ e.
        let buffers : not (is_empty p.response_plugins) ≡ true = sym k ∙ e in
        let none : not (is_empty p.response_plugins) ≡ false = ap (λ xs. not (is_empty xs)) h in
        absurd (ground arith),
  )
  IsExclusive-IsConsistent p (inr h, k) = (ground arith, λ e. h)

  force_buffering-IsConsistent :
      (post : ResponseProcessor W) (posts : List (ResponseProcessor W))
      (built forced : Map Bytes (BuiltProfile W))
      → force_buffering built ≡ ok forced
      → All (λ e. IsConsistent (post ∷ posts) e.1.profile) forced
  unfolding force_buffering
  force_buffering-IsConsistent post posts [] forced h = rw (← ok_inj h) tt
  force_buffering-IsConsistent post posts ((name, b) ∷ built) forced h =
      let (empty, rest) = unless_ok (is_empty b.profile.response_chunk_processors) _ _ forced h in
      let (others, done, same) = bind_ok (force_buffering built) _ forced rest in
      rw (← ok_inj same) (
        (ground arith, λ e. nonempty_nil b.profile.response_chunk_processors empty),
        force_buffering-IsConsistent post posts built others done,
      )

  guard_buffering-IsConsistent :
      (posts : List (ResponseProcessor W)) (built forced : Map Bytes (BuiltProfile W))
      → All (λ e. IsExclusive e.1.profile) built
      → guard_buffering posts built ≡ ok forced
      → All (λ e. IsConsistent posts e.1.profile) forced
  unfolding guard_buffering
  guard_buffering-IsConsistent [] built forced a h =
      let weaken : (e : Bytes × BuiltProfile W)
          → IsExclusive e.1.profile
          → IsConsistent [] e.1.profile =
        λ e. IsExclusive-IsConsistent e.1.profile in
      rw (← ok_inj h) (All-weaken weaken built a)
  guard_buffering-IsConsistent (post ∷ posts) built forced a h =
      force_buffering-IsConsistent post posts built forced h

  build_configuration-IsConsistent :
      (max_score : Bytes × Picker W) (cfg : PayloadProcessorConfig N.F) (picker : Bytes)
      (handle : Map Bytes (Instance W)) (l : Loaded W)
      → build_configuration max_score cfg picker handle ≡ ok l
      → All (λ e. IsConsistent l.configuration.post_processors e.1.profile) l.configuration.profiles
  unfolding build_configuration
  build_configuration-IsConsistent max_score cfg picker handle l h =
      let plugin : Bytes → Option (Instance W) = λ ref. Map.get bytes_dec ref handle in
      let (built, b, h1) = bind_ok (build_profiles plugin cfg.profiles) _ l h in
      let (pre, _, h2) = bind_ok (build_pre_processors plugin cfg.pre_processing) _ l h1 in
      let (post, _, h3) = bind_ok (build_post_processors plugin cfg.post_processing) _ l h2 in
      let (profiles, g, h4) = bind_ok (guard_buffering post.0 built) _ l h3 in
      let (_, _, h5) = bind_ok (build_datalayer_sources cfg.datalayer plugin).1 _ l h4 in
      let (_, _, h6) = bind_ok (build_model_selector max_score profiles []) _ l h5 in
      rw (← ok_inj h6) (
        guard_buffering-IsConsistent post.0 built profiles
          (build_profiles-IsExclusive plugin cfg.profiles built b) g)

  -- In a configuration that loads, every profile buffers its responses exactly if it has processors
  -- of response bodies or the configuration has post-processors of bodies; and a profile that
  -- buffers has no processors of chunks.
  pub load_configuration-IsConsistent :
      (registry : Bytes → Option (Bytes → Bytes → Result (Instance W)))
      (decode : Bytes → Result (PayloadProcessorConfig N.F)) (max_score : Bytes × Picker W)
      (bytes : Bytes) (l : Loaded W)
      → load_configuration registry decode max_score bytes ≡ ok l
      → All (λ e. IsConsistent l.configuration.post_processors e.1.profile) l.configuration.profiles
  unfolding load_configuration
  load_configuration-IsConsistent registry decode max_score bytes l h =
      let (cfg, _, h1) = bind_ok (load_raw_configuration decode bytes) _ l h in
      let (handle, _, h2) = bind_ok (instantiate_plugins registry cfg.plugins) _ l h1 in
      let (defaults, _, h3) = bind_ok (apply_plugin_defaults registry cfg handle) _ l h2 in
      build_configuration-IsConsistent max_score cfg defaults.0 defaults.1 l h3
