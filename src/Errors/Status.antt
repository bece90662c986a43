-- ===== src/Errors/Status.antt =====
-- pkg/common/error/error.go, `BuildErrResponse`. `status.Code` of grpc is a parameter.
use llm_d_inference_payload.Prelude.{
  Bytes, bytes_dec, codes, ℕ, [], ◌++◌, Option, none, some, is_empty, if◌then◌else◌, ite, ◌≡◌, ◌≢◌,
  refl,
}
use llm_d_inference_payload.Errors.{
  GoError, coded, plain, grpc, Result, ok, err, error_text, canonical_code, bad_request,
  unauthorized, forbidden, not_found, internal, service_unavailable, resource_exhausted,
}
use llm_d_inference_payload.Envoy.{ProcessingResponse, immediate_response}

-- the `switch`; `none` is its `default`
unfoldable pub http_code : Bytes → Option ℕ
http_code code = ite (bytes_dec code bad_request) (some 400) (
    ite (bytes_dec code unauthorized) (some 401) (
      ite (bytes_dec code forbidden) (some 403) (
        ite (bytes_dec code not_found) (some 404) (
          ite (bytes_dec code resource_exhausted) (some 429) (
            ite (bytes_dec code internal) (some 500)
              (ite (bytes_dec code service_unavailable) (some 503) none))))))

-- The body is set if the text is not empty, and an unset one is empty: it is the text either way.
unfoldable pub build_err_response : (GoError → ℕ) → GoError → Result ProcessingResponse
build_err_response status_code e = elim (http_code (canonical_code e)) [
  | none ↦ err (grpc (status_code e) (codes "failed to handle request: " ++ error_text e))
  | some code ↦ ok (immediate_response code (if is_empty (error_text e) then [] else error_text e))
]

pub build_err_response-bad_request :
    (status_code : GoError → ℕ) (msg : Bytes)
    → let e = coded bad_request msg in
      build_err_response status_code e ≡ ok (immediate_response 400 (error_text e))
unfolding build_err_response http_code canonical_code bytes_dec error_text
build_err_response-bad_request status_code msg = refl

-- Only the errors of this package's type are answered over HTTP: any other ends the stream with a
-- gRPC error.
pub build_err_response-plain :
    (status_code : GoError → ℕ) (msg : Bytes) (r : ProcessingResponse)
    → build_err_response status_code (plain msg) ≢ ok r
unfolding build_err_response http_code canonical_code bytes_dec
build_err_response-plain status_code msg r e = cc
