-- ===== src/Envoy/Headers.antt =====
-- pkg/common/envoy/headers.go
use llm_d_inference_payload.Prelude.{
  Bytes, bytes_dec, to_lower, is_empty, if◌then◌else◌, ite, List, [], ◌∷◌, Option, none, some,
}
use llm_d_inference_payload.Prelude.Map.{Map}
use llm_d_inference_payload.Envoy.{
  HeaderValue, HttpHeaders, HeaderValueOption, overwrite_if_exists_or_add,
}

unfoldable pub get_header_value : HeaderValue → Bytes
get_header_value header = if is_empty header.raw_value then header.value else header.raw_value

-- the loop of `ExtractHeaderValue`
unfoldable pub find_header : Bytes → List HeaderValue → Bytes
unfolding get_header_value
find_header key_in_lower [] = []
find_header key_in_lower (h ∷ hs) =
    ite (bytes_dec (to_lower h.key) key_in_lower) (get_header_value h) (find_header key_in_lower hs)

unfoldable pub extract_header_value : Option HttpHeaders → Bytes → Bytes
unfolding find_header
extract_header_value none key = []
extract_header_value (some req) key = elim req.headers [
  | none ↦ []
  | some hs ↦ find_header (to_lower key) hs
]

abbrev pub header_option : Bytes × Bytes → HeaderValueOption
header_option e = record {
  header = record { key = e.0; value = []; raw_value = e.1 };
  append_action = overwrite_if_exists_or_add;
}

unfoldable pub generate_headers_mutation : Map Bytes Bytes → List HeaderValueOption
generate_headers_mutation [] = []
generate_headers_mutation (e ∷ m) = header_option e ∷ generate_headers_mutation m
