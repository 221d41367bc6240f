-- ===== src/Diff/Members.antt =====
-- The resources that `Diff` creates and applies are among the rendered ones.

use bundle_controller.Base.{List, [], ◌∷◌, Option-cases, inl, inr, lookup, All, All-append}
use bundle_controller.Types.{ObjectReference, reference_eq}
use bundle_controller.Resource.{Unstructured, get_reference}
use bundle_controller.Cluster.{Platform}
use bundle_controller.Diff.{diff, Sorting, sort_resource, sort_resources}
use bundle_controller.Diff.Partition.{sort_resource_new, sort_resource_old}

module _ (P : Unstructured → Type 0) where
  All-sort_resource :
      (item : Unstructured) (s : Sorting)
      → P item
      → All P s.creats
      → All P (sort_resource item s).creats
  All-sort_resource item s x h = elim (Option-cases (lookup (get_reference item) s.seen)) [
    | inl fresh ↦ rw (sort_resource_new item s fresh) (All-append P s.creats (item ∷ []) h (x, tt))
    | inr (used, old) ↦ rw (sort_resource_old item s old) h
  ]

  All-sort_resources :
      (resources : List Unstructured) (s : Sorting)
      → All P resources
      → All P s.creats
      → All P (sort_resources resources s).creats
  unfolding sort_resources
  All-sort_resources [] s hs h = h
  All-sort_resources (item ∷ resources) s (x, hs) h =
      All-sort_resources resources (sort_resource item s) hs (All-sort_resource item s x h)

  -- The created resources are among the rendered ones.
  pub All-creats_diff :
      (p : Platform) (managed : List ObjectReference) (resources : List Unstructured)
      → All P resources
      → All P (diff p managed resources).creats
  unfolding diff
  All-creats_diff p managed resources h = All-sort_resources resources _ h tt

  All-applys_resource :
      (item : Unstructured) (s : Sorting)
      → P item
      → All P s.applys
      → All P (sort_resource item s).applys
  All-applys_resource item s x h = elim (Option-cases (lookup (get_reference item) s.seen)) [
    | inl fresh ↦ rw (sort_resource_new item s fresh) h
    | inr (used, old) ↦
        rw (sort_resource_old item s old) (All-append P s.applys (item ∷ []) h (x, tt))
  ]

  All-applys_resources :
      (resources : List Unstructured) (s : Sorting)
      → All P resources
      → All P s.applys
      → All P (sort_resources resources s).applys
  unfolding sort_resources
  All-applys_resources [] s hs h = h
  All-applys_resources (item ∷ resources) s (x, hs) h =
      All-applys_resources resources (sort_resource item s) hs (All-applys_resource item s x h)

  -- The applied resources are among the rendered ones.
  pub All-applys_diff :
      (p : Platform) (managed : List ObjectReference) (resources : List Unstructured)
      → All P resources
      → All P (diff p managed resources).applys
  unfolding diff
  All-applys_diff p managed resources h = All-applys_resources resources _ h tt
