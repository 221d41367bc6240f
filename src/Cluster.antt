-- ===== src/Cluster.antt =====
-- What the program calls and does not implement: the API server behind `client.Client`, and the
-- parts of Go's runtime and of apimachinery whose results the program does not determine.
use bundle_controller.Base.{String, Bool, not, Option, List, ◌≡◌, ◌≢◌, Dict, Perm, ◌==◌, string_eq}
use bundle_controller.Types.{ObjectReference}
use bundle_controller.Resource.{Unstructured, get_reference}

-- An error of the API server; `not_found` is what `apierrors.IsNotFound` tells of it.
pub record ApiError : Type 0 where
  pub not_found : Bool
  pub message : String

pub data Reply {ℓ} (A : Type ℓ) : Type ℓ where
  reply : A → Reply A
  failed : ApiError → Reply A

-- The patch that is sent: `client.Apply` with its owner and the force option, or a merge patch from
-- the object that was read.
pub data Patch : Type 0 where
  server_side_apply : String → Bool → Patch
  merge_from : Unstructured → Patch

-- A write returns the object as the server answers it, which the client stores into its argument.
pub record Client : Type 1 where
  pub State : Type 0
  -- Whether the objects of a version and kind have a namespace.
  pub is_namespaced : String → String → Bool
  pub get : Unstructured → State → Reply Unstructured
  pub create : Unstructured → State → Reply Unstructured × State
  pub patch : Patch → Unstructured → State → Reply Unstructured × State
  pub delete : Unstructured → State → Option ApiError × State
  -- `controllerutil.CreateOrUpdate` of a namespace of that name.
  pub create_or_update_namespace : String → State → Option ApiError × State

-- The object has a name, and a namespace exactly if its kind has one: a namespace that the kind does
-- not have is cleared by the server, and recorded without it.
abbrev pub IsStorable : Client → Unstructured → Type 0
IsStorable c obj =
    (obj.name ≢ "") × ((obj.namespace == "") ≡ not (c.is_namespaced obj.api_version obj.kind))

-- The server leaves the group, version, kind, namespace and name of a storable object as they are.
pub record KeepsReferences (c : Client) : Type 0 where
  pub create-get_reference :
      (obj answer : Unstructured) (s t : c.State)
      → IsStorable c obj
      → c.create obj s ≡ (reply answer, t)
      → get_reference answer ≡ get_reference obj
  pub patch-get_reference :
      (patch : Patch) (obj answer : Unstructured) (s t : c.State)
      → IsStorable c obj
      → c.patch patch obj s ≡ (reply answer, t)
      → get_reference answer ≡ get_reference obj

pub record Platform : Type 0 where
  -- The order in which `range` visits a map.
  pub range_map : Dict ObjectReference Bool → Dict ObjectReference Bool
  -- `sort.Slice` with its `less`, which is not stable.
  pub sort_slice :
      (ObjectReference → ObjectReference → Bool) → List ObjectReference → List ObjectReference
  -- The text of a GroupVersionKind, from its group and version and its kind.
  pub gvk_string : String → String → String

-- `range` visits each entry once, and sorting rearranges.
pub record IsFaithful (p : Platform) : Type 0 where
  pub range_map-perm : (m : Dict ObjectReference Bool) → Perm (p.range_map m) m
  pub sort_slice-perm :
      (less : ObjectReference → ObjectReference → Bool) (l : List ObjectReference)
      → Perm (p.sort_slice less l) l
