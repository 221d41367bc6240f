-- ===== src/Sync/Convergence.antt =====
-- A run that succeeded leaves nothing to do for the same resources.
use bundle_controller.Base.{
  true, false, List, [], ◌∷◌, ◌≡◌, refl, ◌∙◌, arith, ◌==◌, ==_refl, ==_iff, Bool-cases, inl, inr,
  sym, contains, contains-perm, All, Perm,
}
use mathlib.Core.Path.{subst}
use bundle_controller.Types.{ObjectReference, reference_eq}
use bundle_controller.Resource.{Unstructured, get_reference}
use bundle_controller.Cluster.{Platform, IsFaithful}
use bundle_controller.Diff.{diff}
use bundle_controller.Diff.Partition.{references, contains-creats_diff}
use bundle_controller.Diff.Removes.{IsPlain, get_reference-IsPlain, contains-removes_diff}

references-eq-nil :
    (items : List Unstructured)
    → ((r : ObjectReference) → contains (references items) r ≡ false)
    → items ≡ []
references-eq-nil [] h = refl
references-eq-nil (item ∷ items) h =
    absurd (ground (arith, h (get_reference item), ==_refl (get_reference item)))

All-of_contains :
    (l : List ObjectReference)
    → ((r : ObjectReference) → contains l r ≡ true → IsPlain r)
    → All IsPlain l
All-of_contains [] h = tt
All-of_contains (r ∷ l) h =
    (h r (ground (arith, ==_refl r)), All-of_contains l (λ k e. h k (ground arith)))

contains-references-IsPlain :
    (items : List Unstructured) (r : ObjectReference)
    → contains (references items) r ≡ true
    → IsPlain r
contains-references-IsPlain [] r h = cc
contains-references-IsPlain (item ∷ items) r h = elim (Bool-cases (get_reference item == r)) [
  | inl same ↦ subst IsPlain ((==_iff (get_reference item) r).0 same) (get_reference-IsPlain item)
  | inr other ↦ contains-references-IsPlain items r (ground arith)
]

-- References that are, in some order, those of rendered resources are such as `GetReference`
-- returns.
pub All-IsPlain-perm :
    (managed : List ObjectReference) (resources : List Unstructured)
    → Perm managed (references resources)
    → All IsPlain managed
All-IsPlain-perm managed resources h =
    All-of_contains managed
      (λ r e. contains-references-IsPlain resources r (sym (contains-perm r h) ∙ e))

-- If the managed references are those of the resources, in any order, nothing is left to create
-- and nothing to remove, where the map is visited faithfully.
pub diff_settled :
    (p : Platform) (managed : List ObjectReference) (resources : List Unstructured)
    → IsFaithful p
    → Perm managed (references resources)
    → ((diff p managed resources).creats ≡ []) × ((diff p managed resources).removes ≡ [])
diff_settled p managed resources faithful h = (
  references-eq-nil _
      (λ r. contains-creats_diff p managed resources r ∙ rw (contains-perm r h) (ground arith)),
  references-eq-nil _ (λ r.
      contains-removes_diff p managed resources r faithful (All-IsPlain-perm managed resources h)
      ∙ rw (contains-perm r h) (ground arith)),
)
