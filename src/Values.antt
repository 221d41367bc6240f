-- ===== src/Values.antt =====
-- Nested values, `map[string]interface{}`, and the functions that work on them:
-- pkg/apis/bundle/v1beta1/type_values.go (RemoveNulls, FullFill and the JSON methods),
-- pkg/controllers/bundle.go (mergeMaps) and pkg/utils/values.go (EqualMapValues).
pub mod Data
pub mod Codec
pub mod Merge
pub mod Nulls
pub mod Equal
pub mod Copy
