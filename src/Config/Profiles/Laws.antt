-- ===== src/Config/Profiles/Laws.antt =====
-- pkg/config/loader/configloader.go, `buildProfiles`: what a built profile is.
use llm_d_inference_payload.Prelude.{
  Bytes, bytes_dec, StringSet, Float64, false, not, ◌&&◌, List, [], ◌∷◌, Option, none, some,
  is_empty, All, ◌≡◌, refl, ◌⊎◌, inl, inr, arith,
}
use llm_d_inference_payload.Prelude.Map
use llm_d_inference_payload.Prelude.Map.{Map, All-put}
use llm_d_inference_payload.Errors.{ok}
use llm_d_inference_payload.Errors.Cases.{ok_inj, bind_ok, guard_ok}
use llm_d_inference_payload.Framework.{Profile}
use llm_d_inference_payload.Config.{Instance}
use llm_d_inference_payload.Config.Instances.{ProfilePlugins, RawProfile}
use llm_d_inference_payload.Config.Profiles.{
  BuiltProfile, finish_profile, build_sections, build_profile, build_profile_loop, build_profiles,
}

one_kind :
    {A B : Type 0} (xs : List A) (ys : List B)
    → not (is_empty xs) && not (is_empty ys) ≡ false
    → (xs ≡ []) ⊎ (ys ≡ [])
one_kind [] ys h = inl refl
one_kind (x ∷ xs) [] h = inr refl
one_kind (x ∷ xs) (y ∷ ys) h = absurd (ground arith)

module _ ⦃S : StringSet⦄ ⦃N : Float64⦄ {W : Type 0} where
  -- the processors of the responses are of one kind, and the flag says which
  abbrev pub IsExclusive : Profile W → Type 0
  IsExclusive p =
      ((p.response_plugins ≡ []) ⊎ (p.response_chunk_processors ≡ []))
      × (p.needs_response_buffering ≡ not (is_empty p.response_plugins))

  finish_profile-IsExclusive :
      (name : Bytes) (b b' : BuiltProfile W)
      → finish_profile name b ≡ ok b'
      → IsExclusive b'.profile
  unfolding finish_profile
  finish_profile-IsExclusive name b b' h =
      let (mixed, built) =
        guard_ok
          (not (is_empty b.profile.response_plugins)
            && not (is_empty b.profile.response_chunk_processors))
          _ _ b' h in
      rw (← ok_inj built)
        (one_kind b.profile.response_plugins b.profile.response_chunk_processors mixed, refl)

module _ ⦃S : StringSet⦄ ⦃N : Float64⦄ {W : Type 0} (plugin : Bytes → Option (Instance W)) where
  build_sections-IsExclusive :
      (name : Bytes) (plugins : Option (ProfilePlugins N.F)) (b : BuiltProfile W)
      → build_sections plugin name plugins ≡ ok b
      → IsExclusive b.profile
  unfolding build_sections
  build_sections-IsExclusive name none b h = absurd (ground arith)
  build_sections-IsExclusive name (some plugins) b h =
      let (_, placed) = guard_ok (is_empty plugins.request && is_empty plugins.response) _ _ b h in
      let (b', _, finished) = bind_ok _ (finish_profile name) b placed in
      finish_profile-IsExclusive name b' b finished

  build_profile-IsExclusive :
      (raw : RawProfile N.F) (b : BuiltProfile W)
      → build_profile plugin raw ≡ ok b
      → IsExclusive b.profile
  unfolding build_profile
  build_profile-IsExclusive raw b h =
      build_sections-IsExclusive raw.name raw.plugins b (guard_ok (is_empty raw.name) _ _ b h).1

  build_profile_loop-IsExclusive :
      (raws : List (RawProfile N.F)) (profiles built : Map Bytes (BuiltProfile W))
      → All (λ e. IsExclusive e.1.profile) profiles
      → build_profile_loop plugin raws profiles ≡ ok built
      → All (λ e. IsExclusive e.1.profile) built
  unfolding build_profile_loop
  build_profile_loop-IsExclusive [] profiles built a h = rw (← ok_inj h) a
  build_profile_loop-IsExclusive (raw ∷ raws) profiles built a h =
      let (b, made, rest) = bind_ok (build_profile plugin raw) _ built h in
      build_profile_loop-IsExclusive raws (Map.put bytes_dec raw.name b profiles) built
        (All-put bytes_dec (λ (e : Bytes × BuiltProfile W). IsExclusive e.1.profile) raw.name b
          profiles (build_profile-IsExclusive raw b made) a)
        rest

  -- In profiles that are built, the processors of the responses are either all of bodies or all of
  -- chunks, and a profile buffers its responses exactly if it has processors of bodies.
  pub build_profiles-IsExclusive :
      (raws : List (RawProfile N.F)) (built : Map Bytes (BuiltProfile W))
      → build_profiles plugin raws ≡ ok built
      → All (λ e. IsExclusive e.1.profile) built
  unfolding build_profiles
  build_profiles-IsExclusive [] built h = absurd (ground arith)
  build_profiles-IsExclusive (raw ∷ raws) built h =
      build_profile_loop-IsExclusive (raw ∷ raws) [] built tt h
