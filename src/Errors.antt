-- ===== src/Errors.antt =====
-- pkg/common/error/error.go: the errors of the processor and their HTTP answers; and the outcome of
-- a Go call, which returns, fails with an error, or panics.
pub mod Status
pub mod Cases
use llm_d_inference_payload.Prelude.{
  Bytes, codes, ℕ, itoa, List, [], ◌∷◌, ◌++◌, none, some, get_elem?,
}

-- `coded` is the source's `Error`; `plain` any other error, with its text; `grpc` a gRPC status.
pub data GoError : Type 0 where
  coded : Bytes → Bytes → GoError
  plain : Bytes → GoError
  grpc : ℕ → Bytes → GoError

pub data Result {ℓ} (A : Type ℓ) : Type ℓ where
  ok : A → Result A
  err : GoError → Result A
  panic : Result A

infixl 5 ◌>>=◌ ◌>>◌
abbrev pub ◌>>=◌ {ℓ κ} : {A : Type ℓ} {B : Type κ} → Result A → (A → Result B) → Result B
ok a >>= f = f a
err e >>= f = err e
panic >>= f = panic

abbrev pub ◌>>◌ {ℓ} : {B : Type ℓ} → Result (Unit {0}) → Result B → Result B
m >> k = m >>= λ _. k

abbrev pub unknown : Bytes
unknown = codes "Unknown"

abbrev pub bad_request : Bytes
bad_request = codes "BadRequest"

abbrev pub unauthorized : Bytes
unauthorized = codes "Unauthorized"

abbrev pub forbidden : Bytes
forbidden = codes "Forbidden"

abbrev pub not_found : Bytes
not_found = codes "NotFound"

abbrev pub internal : Bytes
internal = codes "Internal"

abbrev pub service_unavailable : Bytes
service_unavailable = codes "ServiceUnavailable"

abbrev pub model_server_error : Bytes
model_server_error = codes "ModelServerError"

abbrev pub resource_exhausted : Bytes
resource_exhausted = codes "ResourceExhausted"

-- `Code.String` of grpc's package codes, as documented
abbrev pub status_names : List Bytes
status_names =
    codes "OK"
    ∷ codes "Canceled"
    ∷ codes "Unknown"
    ∷ codes "InvalidArgument"
    ∷ codes "DeadlineExceeded"
    ∷ codes "NotFound"
    ∷ codes "AlreadyExists"
    ∷ codes "PermissionDenied"
    ∷ codes "ResourceExhausted"
    ∷ codes "FailedPrecondition"
    ∷ codes "Aborted"
    ∷ codes "OutOfRange"
    ∷ codes "Unimplemented"
    ∷ codes "Internal"
    ∷ codes "Unavailable"
    ∷ codes "DataLoss"
    ∷ codes "Unauthenticated"
    ∷ []

unfoldable pub status_name : ℕ → Bytes
status_name code = elim (get_elem? status_names code) [
  | none ↦ codes "Code(" ++ (itoa code ++ codes ")")
  | some name ↦ name
]

-- the method `Error`, and that of a gRPC status
unfoldable pub error_text : GoError → Bytes
unfolding status_name
error_text (coded code msg) = codes "inference error: " ++ (code ++ (codes " - " ++ msg))
error_text (plain msg) = msg
error_text (grpc code msg) =
    codes "rpc error: code = " ++ (status_name code ++ (codes " desc = " ++ msg))

unfoldable pub canonical_code : GoError → Bytes
canonical_code (coded code msg) = code
canonical_code (plain msg) = unknown
canonical_code (grpc code msg) = unknown
