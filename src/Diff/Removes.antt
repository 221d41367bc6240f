-- ===== src/Diff/Removes.antt =====
-- Which managed references `Diff` removes.
use bundle_controller.Base.{
  String, Bool, true, false, not, ◌&&◌, Option, none, some, List, [], ◌∷◌, ◌≡◌, refl, ◌∙◌, arith,
  ◌==◌, ==_iff, Dict, lookup, insert, lookup-insert, contains, any, any-perm, All, Bool-cases, inl,
  inr,
}
use bundle_controller.Types.{ObjectReference, reference_eq}
use bundle_controller.Resource.{Unstructured, get_reference, is_skiped_on}
use bundle_controller.Cluster.{Platform, IsFaithful}
use bundle_controller.Diff.{
  diff, managed_map, Sorting, sort_resource, sort_resources, from_reference, unused,
}
use bundle_controller.Diff.Partition.{
  references, lookup-managed_map, lookup-sort_resources, seen-sort_resource,
}

-- A reference that `GetReference` can return: only its four identifying fields are set.
abbrev pub IsPlain : ObjectReference → Type 0
IsPlain k = k.other ≡ ""

get_reference-from_reference :
    (k : ObjectReference) → IsPlain k → get_reference (from_reference k) ≡ k
unfolding get_reference from_reference
get_reference-from_reference k h = ground arith

-- The entry gives an object to remove, and its reference is `r`.
abbrev is_unused : ObjectReference → ObjectReference × Bool → Bool
is_unused r (k, used) = not used && get_reference (from_reference k) == r

-- One entry for each key, and each key plain.
abbrev IsKeyed : Dict ObjectReference Bool → Type 0
IsKeyed [] = Unit
IsKeyed ((k, used) ∷ m) = (lookup k m ≡ none) × IsPlain k × IsKeyed m

contains-unused :
    (r : ObjectReference) (m : Dict ObjectReference Bool)
    → contains (references (unused m)) r ≡ any (is_unused r) m
unfolding unused
contains-unused r [] = refl
contains-unused r ((k, true) ∷ m) = contains-unused r m
contains-unused r ((k, false) ∷ m) = rw (contains-unused r m)

abbrev is_false : Option Bool → Bool
is_false none = false
is_false (some used) = not used

any-is_unused :
    (r : ObjectReference) (m : Dict ObjectReference Bool)
    → IsKeyed m
    → any (is_unused r) m ≡ is_false (lookup r m)
unfolding lookup
any-is_unused r [] h = refl
any-is_unused r ((k, used) ∷ m) (fresh, plain, h) =
    rw (get_reference-from_reference k plain, any-is_unused r m h) (ground (arith, ==_iff k r))

insert-IsKeyed :
    (k : ObjectReference) (v : Bool) (m : Dict ObjectReference Bool)
    → IsPlain k
    → IsKeyed m
    → IsKeyed (insert k v m)
unfolding insert lookup
insert-IsKeyed k v [] plain h = (refl, plain, tt)
insert-IsKeyed k v ((j, w) ∷ m) plain (fresh, plain', h) = elim (Bool-cases (j == k)) [
  | inl same ↦ rw same (fresh, plain', h)
  | inr other ↦ rw other (
    ground (arith, lookup-insert k j v m, ==_iff k j, ==_iff j k),
    plain',
    insert-IsKeyed k v m plain h,
  )
]

managed_map-IsKeyed :
    (managed : List ObjectReference) (m : Dict ObjectReference Bool)
    → All IsPlain managed
    → IsKeyed m
    → IsKeyed (managed_map managed m)
unfolding managed_map
managed_map-IsKeyed [] m hs h = h
managed_map-IsKeyed (item ∷ managed) m (plain, hs) h =
    managed_map-IsKeyed managed (insert item false m) hs (insert-IsKeyed item false m plain h)

pub get_reference-IsPlain : (item : Unstructured) → IsPlain (get_reference item)
unfolding get_reference
get_reference-IsPlain item = refl

sort_resources-IsKeyed :
    (resources : List Unstructured) (s : Sorting)
    → IsKeyed s.seen
    → IsKeyed (sort_resources resources s).seen
unfolding sort_resources
sort_resources-IsKeyed [] s h = h
sort_resources-IsKeyed (item ∷ resources) s h =
    sort_resources-IsKeyed resources (sort_resource item s) (
      rw (seen-sort_resource item s)
        (insert-IsKeyed (get_reference item) true s.seen (get_reference-IsPlain item) h))

unused-never_skiped :
    (key : String) (m : Dict ObjectReference Bool)
    → All (λ item. is_skiped_on item key ≡ false) (unused m)
unfolding unused is_skiped_on from_reference
unused-never_skiped key [] = tt
unused-never_skiped key ((k, true) ∷ m) = unused-never_skiped key m
unused-never_skiped key ((k, false) ∷ m) = (refl, unused-never_skiped key m)

module _ (p : Platform) (managed : List ObjectReference) (resources : List Unstructured) where
  -- The objects to remove are exactly those of the managed references that were not rendered,
  -- where the map is visited faithfully, in any order, and the managed references are such as
  -- `GetReference` returns.
  pub contains-removes_diff :
      (r : ObjectReference)
      → IsFaithful p
      → All IsPlain managed
      → contains (references (diff p managed resources).removes) r
        ≡ (contains managed r && not (contains (references resources) r))
  unfolding diff lookup
  contains-removes_diff r faithful plain =
      let s : Sorting = record { creats = []; applys = []; seen = managed_map managed [] } in
      contains-unused r (p.range_map (sort_resources resources s).seen)
      ∙ any-perm (is_unused r) (faithful.range_map-perm (sort_resources resources s).seen)
      ∙ any-is_unused r (sort_resources resources s).seen
          (sort_resources-IsKeyed resources s (managed_map-IsKeyed managed [] plain tt))
      ∙ rw (lookup-sort_resources r resources s, lookup-managed_map r managed []) (ground arith)

  -- No object that is to be removed is skipped, whatever option is asked for: its annotations are
  -- those of an empty object, so the option on deletion has no effect.
  pub removes_diff-never_skiped :
      (key : String)
      → All (λ item. is_skiped_on item key ≡ false) (diff p managed resources).removes
  unfolding diff
  removes_diff-never_skiped key = unused-never_skiped key (p.range_map _)
