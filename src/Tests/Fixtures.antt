-- ===== src/Tests/Fixtures.antt =====
-- The instances and the data of the tests.
use llm_d_inference_payload.Prelude.{
  codes, list_set, thousandths, StringSet, Float64, ℕ, suc, [], ◌∷◌, none, some, inl, true, false,
}
use llm_d_inference_payload.Envoy.{HttpBody}
use llm_d_inference_payload.DataLayer.{Model}
use llm_d_inference_payload.Errors.{ok}
use llm_d_inference_payload.Framework.{Profile, new_profile}
use llm_d_inference_payload.Handlers.{Server}

instance abbrev pub sets : StringSet
sets = list_set

instance abbrev pub floats : Float64
floats = thousandths

abbrev pub profile : Profile ℕ
profile = new_profile

-- a server without plugins, whose world counts the events; every body decodes to an empty map, but
-- for the empty one
abbrev pub server : Server ℕ
server = record {
  pre_processors = [];
  profile_picker = some (λ request profiles w. (ok (some profile), w));
  profiles = (codes "default", profile) ∷ [];
  post_processors = [];
  response_headers_post_processors = [];
  notify = λ e w. suc w;
  unmarshal = λ bytes body. elim bytes [
    | [] ↦ (body, some (codes "unexpected end of JSON input"))
    | b ∷ bs ↦ (some [], none)
  ];
  marshal = λ body. inl (codes "{}");
  trace_headers = λ w. [];
}

abbrev pub alpha : Model floats.F
alpha = record { name = codes "alpha"; attributes = [] }

abbrev pub beta : Model floats.F
beta = record { name = codes "beta"; attributes = [] }

abbrev pub piece : HttpBody
piece = record { body = codes "{"; end_of_stream = false }

abbrev pub last_piece : HttpBody
last_piece = record { body = codes "}"; end_of_stream = true }
