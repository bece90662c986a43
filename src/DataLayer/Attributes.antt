-- ===== src/DataLayer/Attributes.antt =====
-- pkg/framework/interface/datalayer/attributemap.go. The concurrent map makes each operation one
-- step; a nil value is `none`.
use llm_d_inference_payload.Prelude.{
  Bytes, bytes_dec, codes, List, [], ◌∷◌, ◌++◌, Option, none, some, is_empty, if◌then◌else◌,
}
use llm_d_inference_payload.Prelude.Map
use llm_d_inference_payload.Prelude.Map.{Map}
use llm_d_inference_payload.DataLayer.{Attribute}
use llm_d_inference_payload.Errors.{Result, ok, err, plain}

abbrev pub Attributes : Type 0 → Type 0
Attributes F = Map Bytes (Attribute F)

module _ {F : Type 0} where
  unfoldable pub put_attribute : Bytes → Option (Attribute F) → Attributes F → Attributes F
  put_attribute key value m =
      if is_empty key then m else (elim value [ none ↦ m | some v ↦ Map.put bytes_dec key v m ])

  unfoldable pub get_attribute : Bytes → Attributes F → Option (Attribute F)
  get_attribute key m = Map.get bytes_dec key m

  unfoldable pub delete_attribute : Bytes → Attributes F → Attributes F
  delete_attribute key m = Map.delete bytes_dec key m

  unfoldable pub attribute_keys : Attributes F → List Bytes
  attribute_keys [] = []
  attribute_keys ((k, v) ∷ m) = k ∷ attribute_keys m

  -- the loop of `Clone` that puts every entry into the clone
  unfoldable pub clone_into : Attributes F → Attributes F → Attributes F
  unfolding put_attribute
  clone_into [] clone = clone
  clone_into ((k, v) ∷ m) clone = clone_into m (put_attribute k (some v) clone)

  unfoldable pub clone_attributes : Attributes F → Attributes F
  unfolding clone_into
  clone_attributes m = clone_into m []

  -- `ReadAttributeKey`: `assert` is the assertion to the type, `mismatch` the text of its failure.
  unfoldable pub read_attribute_key :
      {T : Type 0}
      → (Attribute F → Option T)
      → (Attribute F → Bytes)
      → Attributes F
      → Bytes
      → Result T
  unfolding get_attribute
  read_attribute_key assert mismatch m key = elim (get_attribute key m) [
    | none ↦ err (plain (codes "attribute \"" ++ (key ++ codes "\": not found")))
    | some v ↦ elim (assert v) [ none ↦ err (plain (mismatch v)) | some t ↦ ok t ]
  ]
