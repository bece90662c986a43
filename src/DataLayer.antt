-- ===== src/DataLayer.antt =====
-- pkg/framework/interface/datalayer: the models of the registry and their attributes.
pub mod Attributes
pub mod Datastore
pub mod Processor
use llm_d_inference_payload.Prelude.{Bytes, List, ℤ}
use llm_d_inference_payload.Prelude.Map.{Map}

-- The values that the source stores in an `AttributeMap`. Each is cloned field by field, so a value
-- stands for its clones. `other` is a value of any other type.
pub data Attribute (F : Type 0) : Type 0 where
  -- modelgroups.Groups
  groups : List Bytes → Attribute F
  -- requestmetadata.RequestMetadataCount
  request_count : ℤ → ℤ → Attribute F
  -- pricing.TokenPrices: the input and the output price
  token_prices : F → F → Attribute F
  other : Attribute F

-- `model` of model.go, as a request sees it
pub record Model (F : Type 0) : Type 0 where
  pub name : Bytes
  pub attributes : Map Bytes (Attribute F)
