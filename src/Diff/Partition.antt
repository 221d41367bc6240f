-- ===== src/Diff/Partition.antt =====
-- Which resources `Diff` creates and which it applies.
use mathlib.Core.List.{append_assoc, append-nil, map-append, perm_middle}
use mathlib.Core.List.Perm
use bundle_controller.Base.{
  Bool, true, false, not, ◌&&◌, ◌||◌, none, some, List, [], ◌∷◌, ◌++◌, map, Perm, ◌≡◌, refl, ◌∙◌,
  arith, ◌==◌, ==_iff, Option-cases, inl, inr, if◌then◌else◌, Dict, lookup, insert, lookup-insert,
  contains, contains-append,
}
use bundle_controller.Types.{ObjectReference, reference_eq}
use bundle_controller.Resource.{Unstructured, get_reference}
use bundle_controller.Cluster.{Platform}
use bundle_controller.Diff.{diff, managed_map, Sorting, sort_resource, sort_resources}

abbrev pub references : List Unstructured → List ObjectReference
references = map get_reference

abbrev pub known : ObjectReference → Dict ObjectReference Bool → Bool
known r m = elim (lookup r m) [ none ↦ false | some _ ↦ true ]

pub lookup-managed_map :
    (r : ObjectReference) (managed : List ObjectReference) (m : Dict ObjectReference Bool)
    → lookup r (managed_map managed m) ≡ (if contains managed r then some false else lookup r m)
unfolding managed_map
lookup-managed_map r [] m = refl
lookup-managed_map r (item ∷ managed) m =
    rw (lookup-managed_map r managed (insert item false m), lookup-insert) (ground arith)

pub known-insert :
    (r k : ObjectReference) (v : Bool) (m : Dict ObjectReference Bool)
    → known r (insert k v m) ≡ (k == r || known r m)
known-insert r k v m = ground (arith, lookup-insert k r v m)

known-managed_map :
    (r : ObjectReference) (managed : List ObjectReference)
    → known r (managed_map managed []) ≡ contains managed r
unfolding lookup
known-managed_map r managed = ground (arith, lookup-managed_map r managed [])

module _ (item : Unstructured) (s : Sorting) where
  pub sort_resource_new :
      lookup (get_reference item) s.seen ≡ none
      → sort_resource item s ≡ record s {
        creats = s.creats ++ (item ∷ []);
        seen = insert (get_reference item) true s.seen;
      }
  unfolding sort_resource
  sort_resource_new e = rw (e, sort_resource)

  pub sort_resource_old :
      {used : Bool}
      → lookup (get_reference item) s.seen ≡ some used
      → sort_resource item s ≡ record s {
        applys = s.applys ++ (item ∷ []);
        seen = insert (get_reference item) true s.seen;
      }
  unfolding sort_resource
  sort_resource_old e = rw (e, sort_resource)

  pub seen-sort_resource : (sort_resource item s).seen ≡ insert (get_reference item) true s.seen
  seen-sort_resource = elim (Option-cases (lookup (get_reference item) s.seen)) [
    | inl fresh ↦ rw (sort_resource_new fresh)
    | inr (used, old) ↦ rw (sort_resource_old old)
  ]

  sort_resource-perm :
      (rest : List Unstructured)
      → Perm
          (((sort_resource item s).creats ++ (sort_resource item s).applys) ++ rest)
          ((s.creats ++ s.applys) ++ item ∷ rest)
  sort_resource-perm rest = elim (Option-cases (lookup (get_reference item) s.seen)) [
    | inl fresh ↦
        rw (sort_resource_new fresh)
          (simp append_assoc (Perm.append_left s.creats (Perm.symm (perm_middle s.applys rest))))
    | inr (used, old) ↦ rw (sort_resource_old old) (simp append_assoc (Perm.refl _))
  ]

  contains-creats :
      (r : ObjectReference)
      → contains (references (sort_resource item s).creats) r
        ≡ (contains (references s.creats) r || (get_reference item == r && not (known r s.seen)))
  contains-creats r = elim (Option-cases (lookup (get_reference item) s.seen)) [
    | inl fresh ↦
        rw (sort_resource_new fresh, map-append, contains-append)
          (ground (arith, ==_iff (get_reference item) r))
    | inr (used, old) ↦ rw (sort_resource_old old) (ground (arith, ==_iff (get_reference item) r))
  ]

  contains-applys :
      (r : ObjectReference)
      → contains (references (sort_resource item s).applys) r
        ≡ (contains (references s.applys) r || (get_reference item == r && known r s.seen))
  contains-applys r = elim (Option-cases (lookup (get_reference item) s.seen)) [
    | inl fresh ↦ rw (sort_resource_new fresh) (ground (arith, ==_iff (get_reference item) r))
    | inr (used, old) ↦
        rw (sort_resource_old old, map-append, contains-append)
          (ground (arith, ==_iff (get_reference item) r))
  ]

sort_resources-perm :
    (resources : List Unstructured) (s : Sorting)
    → Perm
        ((sort_resources resources s).creats ++ (sort_resources resources s).applys)
        ((s.creats ++ s.applys) ++ resources)
unfolding sort_resources
sort_resources-perm [] s = rw append-nil (Perm.refl _)
sort_resources-perm (item ∷ resources) s =
    Perm.trans (sort_resources-perm resources (sort_resource item s))
      (sort_resource-perm item s resources)

-- Each resource is either created or applied, and as often as it was rendered.
pub diff-perm :
    (p : Platform) (managed : List ObjectReference) (resources : List Unstructured)
    → Perm ((diff p managed resources).creats ++ (diff p managed resources).applys) resources
unfolding diff
diff-perm p managed resources = sort_resources-perm resources _

-- The keys of the map after the loop: those before it, and the references of the resources.
pub lookup-sort_resources :
    (r : ObjectReference) (resources : List Unstructured) (s : Sorting)
    → lookup r (sort_resources resources s).seen
      ≡ (if contains (references resources) r then some true else lookup r s.seen)
unfolding sort_resources
lookup-sort_resources r [] s = refl
lookup-sort_resources r (item ∷ resources) s =
    rw
      (
        lookup-sort_resources r resources (sort_resource item s),
        seen-sort_resource item s,
        lookup-insert,
      )
      (ground arith)

contains-creats_loop :
    (r : ObjectReference) (resources : List Unstructured) (s : Sorting)
    → contains (references (sort_resources resources s).creats) r ≡ (
        contains (references s.creats) r
        || (contains (references resources) r && not (known r s.seen)))
unfolding sort_resources
contains-creats_loop r [] s = ground arith
contains-creats_loop r (item ∷ resources) s =
    rw
      (
        contains-creats_loop r resources (sort_resource item s),
        seen-sort_resource item s,
        known-insert r (get_reference item) true s.seen,
        contains-creats item s r,
      )
      (ground arith)

contains-applys_loop :
    (r : ObjectReference) (resources : List Unstructured) (s : Sorting)
    → known r s.seen ≡ true
    → contains (references (sort_resources resources s).applys) r
      ≡ (contains (references s.applys) r || contains (references resources) r)
unfolding sort_resources
contains-applys_loop r [] s h = ground arith
contains-applys_loop r (item ∷ resources) s h =
    rw
      (
        contains-applys_loop r resources (sort_resource item s) (
            rw (seen-sort_resource item s, known-insert r (get_reference item) true s.seen)
              (ground arith)),
        contains-applys item s r,
        h,
      )
      (ground arith)

-- The created resources are exactly the rendered ones whose reference is not managed.
pub contains-creats_diff :
    (p : Platform) (managed : List ObjectReference) (resources : List Unstructured)
    (r : ObjectReference)
    → contains (references (diff p managed resources).creats) r
      ≡ (contains (references resources) r && not (contains managed r))
unfolding diff
contains-creats_diff p managed resources r =
    rw (contains-creats_loop r resources _, known-managed_map r managed)

-- A rendered resource whose reference is managed is among those that are applied.
pub contains-applys_diff :
    (p : Platform) (managed : List ObjectReference) (resources : List Unstructured)
    (r : ObjectReference)
    → contains managed r ≡ true
    → contains (references (diff p managed resources).applys) r ≡ contains (references resources) r
unfolding diff
contains-applys_diff p managed resources r h =
    contains-applys_loop r resources _ (known-managed_map r managed ∙ h)
