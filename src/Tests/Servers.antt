-- ===== src/Tests/Servers.antt =====
-- Servers and libraries in memory.
use bundle_controller.Base.{
  String, ◌<>◌, Bool, true, false, Option, none, some, List, [], ◌∷◌, ◌≡◌, refl, arith, ◌==◌,
  string_eq, if◌then◌else◌, ok, contains, ap, sym, ==_refl,
}
use mathlib.Core.List.Perm
use bundle_controller.Types.{ObjectReference, reference_eq, Bundle}
use bundle_controller.Values.Data.{get, end, field, text, put}
use bundle_controller.Values.Codec.{Json}
use bundle_controller.Resource.{Unstructured, get_reference}
use bundle_controller.Cluster.{
  ApiError, Reply, reply, failed, Client, KeepsReferences, Platform, IsFaithful,
}
use bundle_controller.Manifest.{content}
use bundle_controller.Native.{Tools}
use bundle_controller.Reconciler.Api.{Api, Libraries, IsLawful, bundle}
use bundle_controller.Reconciler.Wire.{Wire, carried}
use bundle_controller.Tests.Samples.{config_map_named, image_values}

abbrev pub missing_error : ApiError
missing_error = record { not_found = true; message = "not found" }

abbrev pub forbidden_error : ApiError
forbidden_error = record { not_found = false; message = "forbidden" }

abbrev pub versionless : ObjectReference → ObjectReference
versionless r = record r { api_version = "" }

-- One object has all versions.
abbrev pub one_object : ObjectReference → ObjectReference → Bool
one_object a b = versionless a == versionless b

abbrev pub same_object : Unstructured → Unstructured → Bool
same_object a b = one_object (get_reference a) (get_reference b)

abbrev pub find : Unstructured → List Unstructured → Reply Unstructured
find obj [] = failed missing_error
find obj (o ∷ os) = if same_object obj o then reply o else find obj os

abbrev pub without : Unstructured → List Unstructured → List Unstructured
without obj [] = []
without obj (o ∷ os) = let rest = without obj os in if same_object obj o then rest else o ∷ rest

abbrev delete_found :
    Unstructured → List Unstructured → Reply Unstructured → Option ApiError × List Unstructured
delete_found obj s (failed e) = (some e, s)
delete_found obj s (reply o) = (none, without obj s)

-- The objects of the cluster, in a list.
abbrev pub memory : Client
memory = record {
  State = List Unstructured;
  is_namespaced = λ api_version kind. true;
  get = find;
  create = λ obj s. (reply obj, obj ∷ s);
  patch = λ patch obj s. (reply obj, obj ∷ without obj s);
  delete = λ obj s. delete_found obj s (find obj s);
  create_or_update_namespace = λ name s. (none, s);
}

-- The same, but that it deletes nothing.
abbrev pub guarded_memory : Client
guarded_memory = record memory { delete = λ obj s. (some forbidden_error, s) }

abbrev pub answered : Reply Unstructured → Unstructured → Unstructured
answered (reply o) other = o
answered (failed e) other = other

pub memory-KeepsReferences : KeepsReferences memory
memory-KeepsReferences = record {
  create-get_reference =
      λ obj answer s t storable e. ap (λ r. get_reference (answered r.0 answer)) (sym e);
  patch-get_reference =
      λ patch obj answer s t storable e. ap (λ r. get_reference (answered r.0 answer)) (sym e);
}

-- Maps are visited in the order of insertion, and nothing is moved by a sort.
abbrev pub platform : Platform
platform = record {
  range_map = λ m. m;
  sort_slice = λ less l. l;
  gvk_string = λ api_version kind. api_version <> ", Kind=" <> kind;
}

pub platform-IsFaithful : IsFaithful platform
platform-IsFaithful = record {
  range_map-perm = λ m. Perm.refl m;
  sort_slice-perm = λ less l. Perm.refl l;
}

-- A codec that knows one map.
abbrev pub json : Json
json = record {
  unmarshal = λ raw.
      if raw == "null"
      then ok none
      else if raw == "{}"
      then ok (some end)
      else ok (some image_values);
  marshal = λ m. "{\"image\":{\"tag\":\"1.2\"}}";
}

-- The map that gob and that codec know.
abbrev pub wire : Wire
wire = record {
  json = json;
  gob = record {
    encode = λ m. elim (get "image" m) [ none ↦ "" | some v ↦ "image" ];
    decode = λ raw. if raw == "image" then some image_values else some end;
  };
  resent = λ raw. raw;
  resent_time = λ time. time;
}

abbrev pub tools : Tools
tools = record {
  decode = λ text. content (config_map_named text) ∷ [];
  scope = λ obj. ok "namespace";
  json = json;
  now = 5;
}

-- One bundle, and no other object.
abbrev pub names : Bundle → String → String → Bool
names b namespace name = if b.namespace == namespace then b.name == name else false

abbrev pub one_bundle : Api Bundle
one_bundle = record {
  get_bundle = λ namespace name s. if names s namespace name then reply s else failed missing_error;
  get_secret = λ namespace name s.
      if name == "auth" then reply (("user", "root") ∷ []) else failed missing_error;
  get_config_map = λ namespace name s. failed missing_error;
  get_dependency = λ dep s. if dep.name == "web" then reply (bundle s) else failed missing_error;
  update = λ b s. (reply b, b);
  update_status = λ b s.
      if names s b.namespace b.name
      then (
        reply (record s { status = carried wire b.status }),
        record s { status = carried wire b.status },
      )
      else (failed missing_error, s);
  list = λ namespace s. record { items = s ∷ [] };
}

abbrev without_text : String → List String → List String
without_text f [] = []
without_text f (g ∷ gs) = let rest = without_text f gs in if g == f then rest else g ∷ rest

abbrev pub libraries : Libraries
libraries = record {
  contains_finalizer = λ fs f. contains fs f;
  add_finalizer = λ fs f. if contains fs f then fs else f ∷ fs;
  remove_finalizer = λ fs f. without_text f fs;
  parse_into = λ entry base. (none, put "set" (text entry) base);
  unmarshal_yaml = λ raw. ok (field "yaml" (text raw) end);
  json = json;
  show_values_from = λ ref. ref.name;
  show_string = λ s. s;
}

contains-without_text : (fs : List String) (f : String) → contains (without_text f fs) f ≡ false
contains-without_text [] f = refl
contains-without_text (g ∷ gs) f = ground (arith, contains-without_text gs f)

pub libraries-IsLawful : IsLawful libraries
libraries-IsLawful = record {
  contains-add = λ fs f. ground (arith, ==_refl f);
  contains-remove = λ fs f. contains-without_text fs f;
}
