-- ===== src/Diff.antt =====
-- pkg/utils/apply.go, `Diff`: the managed references are compared with the rendered resources.
pub mod Partition
pub mod Members
pub mod Removes
use bundle_controller.Base.{
  Bool, true, false, Option, none, some, List, [], ◌∷◌, ◌++◌, if◌then◌else◌, Dict, lookup, insert,
}
use bundle_controller.Types.{ObjectReference, reference_eq}
use bundle_controller.Values.Data.{end}
use bundle_controller.Resource.{Unstructured, get_reference}
use bundle_controller.Cluster.{Platform}

pub record DiffResult : Type 0 where
  pub creats : List Unstructured
  pub applys : List Unstructured
  pub removes : List Unstructured

-- `managedmap` with false for each managed reference.
unfoldable pub managed_map :
    List ObjectReference → Dict ObjectReference Bool → Dict ObjectReference Bool
managed_map [] m = m
managed_map (item ∷ managed) m = managed_map managed (insert item false m)

-- The variables of the loop over the resources.
pub record Sorting : Type 0 where
  pub creats : List Unstructured
  pub applys : List Unstructured
  pub seen : Dict ObjectReference Bool

unfoldable pub sort_resource : Unstructured → Sorting → Sorting
sort_resource item s = elim (lookup (get_reference item) s.seen) [
  | none ↦ record s {
    creats = s.creats ++ (item ∷ []);
    seen = insert (get_reference item) true s.seen;
  }
  | some _ ↦ record s {
    applys = s.applys ++ (item ∷ []);
    seen = insert (get_reference item) true s.seen;
  }
]

unfoldable pub sort_resources : List Unstructured → Sorting → Sorting
sort_resources [] s = s
sort_resources (item ∷ resources) s = sort_resources resources (sort_resource item s)

-- The empty object that takes the four identifying fields of a reference.
unfoldable pub from_reference : ObjectReference → Unstructured
from_reference k = record {
  api_version = k.api_version;
  kind = k.kind;
  namespace = k.namespace;
  name = k.name;
  annotations = none;
  managed_fields = none;
  content = end;
}

-- The loop over the map, in the order in which it is visited.
unfoldable pub unused : Dict ObjectReference Bool → List Unstructured
unused [] = []
unused ((k, used) ∷ m) = if used then unused m else from_reference k ∷ unused m

module _ (p : Platform) where
  unfoldable pub diff : List ObjectReference → List Unstructured → DiffResult
  diff managed resources =
      let s =
        sort_resources resources
          (record { creats = []; applys = []; seen = managed_map managed [] }) in
      record { creats = s.creats; applys = s.applys; removes = unused (p.range_map s.seen) }
