-- ===== src/Manifest/Filtered.antt =====
-- pkg/utils/yaml.go, `SplitYAMLFilterd`, `ReadObjectsFromFile` and `ConvertToTyped`: objects of a type.
use bundle_controller.Base.{
  String, ◌<>◌, ◌||◌, Option, none, some, List, [], ◌∷◌, ◌++◌, ◌≡◌, ◌∙◌, arith, ◌==◌, string_eq,
  if◌then◌else◌, Result, ok, err, trim_space, Result-cases, inl, inr,
}
use mathlib.Core.List.{append_assoc, append-nil}
use bundle_controller.Resource.{Unstructured}

-- What one call of the decoder gives: a raw document, or an error other than the end of the stream.
pub data RawDocument : Type 0 where
  extension : String → RawDocument
  unreadable : String → RawDocument

-- What the deserializer gives: the object or its error, and the kind where it found one.
pub record Decoded (Object : Type 0) : Type 0 where
  pub object : Result Object
  pub gvk : Option String

-- The scheme: `as_type` is the type assertion to the type that is looked for.
pub record Scheme (Object T : Type 0) : Type 0 where
  pub documents : String → List RawDocument
  pub decode : String → Decoded Object
  pub unmarshal_unstructured : String → Result Object
  pub set_group_version_kind : String → Object → Object
  pub as_type : Object → Option T
  pub from_unstructured : Unstructured → Object
  pub marshal : Unstructured → Result String

pub record Objects (T : Type 0) : Type 0 where
  pub objs : List T
  pub failure : Option String

module _ {Object T : Type 0} (scheme : Scheme Object T) where
  -- What the type is not known of is taken as an unstructured object.
  decode_or_unstructured : String → Result Object → Result Object
  decode_or_unstructured raw (ok obj) = ok obj
  decode_or_unstructured raw (err message) = scheme.unmarshal_unstructured raw

  with_kind : Option String → Object → Object
  with_kind none obj = obj
  with_kind (some gvk) obj = scheme.set_group_version_kind gvk obj

  -- A document that is empty, or the object of one, if it is of the type.
  unfoldable pub typed : String → Result (Option T)
  unfolding decode_or_unstructured with_kind
  typed raw =
      let trimmed = trim_space raw in
      if trimmed == "" || trimmed == "null"
      then ok none
      else elim (decode_or_unstructured trimmed (scheme.decode trimmed).object) [
        | err message ↦ err message
        | ok obj ↦ ok (scheme.as_type (with_kind (scheme.decode trimmed).gvk obj))
      ]

  abbrev pub maybe_one : Option T → List T
  maybe_one none = []
  maybe_one (some x) = x ∷ []

  -- The loop over the calls of the decoder. An object that is not even unstructured drops all.
  unfoldable pub split_filterd : List RawDocument → List T → Objects T
  split_filterd [] objs = record { objs = objs; failure = none }
  split_filterd (unreadable message ∷ rest) objs = record {
    objs = objs;
    failure = some ("failed to unmarshal manifest: " <> message);
  }
  split_filterd (extension raw ∷ rest) objs = elim (typed raw) [
    | err message ↦ record { objs = []; failure = some message }
    | ok found ↦ split_filterd rest (objs ++ maybe_one found)
  ]

  unfoldable pub split_yaml_filterd : String → Objects T
  split_yaml_filterd text = split_filterd (scheme.documents text) []

  -- With what `os.ReadFile` gives.
  unfoldable pub read_objects_from_file : Result String → Objects T
  read_objects_from_file (err message) = record { objs = []; failure = some message }
  read_objects_from_file (ok content) = split_yaml_filterd content

  convert_one : Unstructured → String → Object
  convert_one us raw = elim (scheme.decode raw).object [
    | err message ↦ scheme.from_unstructured us
    | ok obj ↦ with_kind (scheme.decode raw).gvk obj
  ]

  convert_all : List Unstructured → List Object → List Object
  convert_all [] objs = objs
  convert_all (us ∷ uns) objs = elim (scheme.marshal us) [
    | err message ↦ []
    | ok raw ↦ convert_all uns (objs ++ (convert_one us raw ∷ []))
  ]

  unfoldable pub convert_to_typed : List Unstructured → List Object
  unfolding convert_all convert_one with_kind
  convert_to_typed uns = convert_all uns []

  -- The objects of the type among the documents, in their order.
  abbrev pub objects_of : List RawDocument → List T
  objects_of [] = []
  objects_of (unreadable message ∷ rest) = []
  objects_of (extension raw ∷ rest) =
      elim (typed raw) [ err message ↦ [] | ok found ↦ maybe_one found ] ++ objects_of rest

  split_filterd-objs :
      (docs : List RawDocument) (objs : List T)
      → (split_filterd docs objs).failure ≡ none
      → (split_filterd docs objs).objs ≡ objs ++ objects_of docs
  unfolding split_filterd
  split_filterd-objs [] objs fine = ground (arith, append-nil objs)
  split_filterd-objs (unreadable message ∷ rest) objs fine = cc
  split_filterd-objs (extension raw ∷ rest) objs fine = elim (Result-cases (typed raw)) [
    | inl (message, failed) ↦ absurd (cc (rw (failed, split_filterd) at fine))
    | inr (found, decoded) ↦
        rw (decoded, split_filterd)
          (split_filterd-objs rest (objs ++ maybe_one found) (rw (decoded, split_filterd) at fine)
            ∙ append_assoc objs (maybe_one found) (objects_of rest))
  ]

  -- Where the stream is read without an error, the objects are exactly those of the type, in order.
  pub split_yaml_filterd-objs :
      (text : String)
      → (split_yaml_filterd text).failure ≡ none
      → (split_yaml_filterd text).objs ≡ objects_of (scheme.documents text)
  unfolding split_yaml_filterd
  split_yaml_filterd-objs text fine = split_filterd-objs (scheme.documents text) [] fine
