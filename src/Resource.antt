-- ===== src/Resource.antt =====
-- Objects of the cluster as the program handles them (`unstructured.Unstructured`), and
-- `GetReference` of pkg/utils/reference.go and `IsSkipedOn` of pkg/utils/apply.go.
use bundle_controller.Base.{
  String, Bool, false, Option, none, some, string_eq, Dict, lookup, contains, split_comma,
}
use bundle_controller.Types.{ObjectReference, annotation_ignore_options}
use bundle_controller.Values.Data.{Fields}

-- The identifying fields, the annotations (nil or a map), `managedFields`, and the rest of the
-- object. `api_version` is well formed: at most one slash, so it is its own group and version.
pub record Unstructured : Type 0 where
  pub api_version : String
  pub kind : String
  pub namespace : String
  pub name : String
  pub annotations : Option (Dict String String)
  pub managed_fields : Option String
  pub content : Fields

unfoldable pub get_reference : Unstructured → ObjectReference
get_reference obj = record {
  api_version = obj.api_version;
  kind = obj.kind;
  namespace = obj.namespace;
  name = obj.name;
  other = "";
}

-- annotations[key], "" where the key is missing.
abbrev annotation : Dict String String → String → String
annotation annotations key = elim (lookup key annotations) [ none ↦ "" | some v ↦ v ]

unfoldable pub is_skiped_on : Unstructured → String → Bool
is_skiped_on obj key = elim obj.annotations [
  | none ↦ false
  | some annotations ↦ contains (split_comma (annotation annotations annotation_ignore_options)) key
]
