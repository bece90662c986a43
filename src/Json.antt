-- ===== src/Json.antt =====
-- The Go values that `encoding/json` decodes into an `any`: `float64` for numbers, maps and slices.
-- An object is the association list of its map.
use llm_d_inference_payload.Prelude.{Bytes, bytes_dec, Bool, Option, none, some, ite}

mutual
  pub data Value (F : Type 0) : Type 0 where
    null : Value F
    bool : Bool → Value F
    num : F → Value F
    str : Bytes → Value F
    arr : Items F → Value F
    obj : Fields F → Value F

  pub data Items (F : Type 0) : Type 0 where
    nil : Items F
    cons : Value F → Items F → Items F

  pub data Fields (F : Type 0) : Type 0 where
    end : Fields F
    field : Bytes → Value F → Fields F → Fields F

module _ {F : Type 0} where
  -- The type assertions `v.(string)`, `v.(float64)`, `v.(map[string]any)`, `v.([]any)` of a value
  -- that a map gave, or did not: the zero value of a missing key, nil, fails them all.
  unfoldable pub as_string : Option (Value F) → Option Bytes
  as_string none = none
  as_string (some v) = elim v [ str s ↦ some s | _ ↦ none ]

  unfoldable pub as_float : Option (Value F) → Option F
  as_float none = none
  as_float (some v) = elim v [ num x ↦ some x | _ ↦ none ]

  unfoldable pub as_map : Option (Value F) → Option (Fields F)
  as_map none = none
  as_map (some v) = elim v [ obj m ↦ some m | _ ↦ none ]

  unfoldable pub as_slice : Option (Value F) → Option (Items F)
  as_slice none = none
  as_slice (some v) = elim v [ arr xs ↦ some xs | _ ↦ none ]

  -- `m[k]` of an object
  unfoldable pub field_of : Bytes → Fields F → Option (Value F)
  field_of k end = none
  field_of k (field j v m) = ite (bytes_dec j k) (some v) (field_of k m)

  -- `m[k]` of an object that may be nil
  unfoldable pub field_of? : Bytes → Option (Fields F) → Option (Value F)
  unfolding field_of
  field_of? k none = none
  field_of? k (some m) = field_of k m

  -- `m[k] = v`
  unfoldable pub put_field : Bytes → Value F → Fields F → Fields F
  put_field k v end = field k v end
  put_field k v (field j w m) = ite (bytes_dec j k) (field k v m) (field j w (put_field k v m))

  -- the loop that copies the entries of the first map into the second
  unfoldable pub merge_fields : Fields F → Fields F → Fields F
  unfolding put_field
  merge_fields end existing = existing
  merge_fields (field k v m) existing = merge_fields m (put_field k v existing)
