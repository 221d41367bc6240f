-- ===== src/Manifest.antt =====
-- pkg/utils/yaml.go, `SplitYAML`: the objects of a stream of YAML documents.
pub mod Filtered
use bundle_controller.Base.{String, ◌<>◌, Option, none, some, List, [], ◌∷◌, ◌++◌}
use bundle_controller.Resource.{Unstructured}

-- What one call of the decoder gives: an object, an object with no fields, or an error other than
-- the end of the stream.
pub data Document : Type 0 where
  content : Unstructured → Document
  empty : Document
  invalid : String → Document

-- `objs` and the error that `SplitYAML` returns.
pub record Split : Type 0 where
  pub objs : List Unstructured
  pub failure : Option String

-- The loop over the calls of the decoder, which end with the stream.
unfoldable pub split_documents : List Document → List Unstructured → Split
split_documents [] objs = record { objs = objs; failure = none }
split_documents (content u ∷ rest) objs = split_documents rest (objs ++ (u ∷ []))
split_documents (empty ∷ rest) objs = split_documents rest objs
split_documents (invalid message ∷ rest) objs = record {
  objs = objs;
  failure = some ("failed to unmarshal manifest: " <> message);
}

unfoldable pub split_yaml : (String → List Document) → String → Split
split_yaml decode text = split_documents (decode text) []
