-- ===== src/Sync/Apart.antt =====
-- What a synchronisation leaves alone.
use bundle_controller.Base.{
  String, false, List, [], ◌∷◌, ◌≡◌, refl, ◌∙◌, arith, ◌==◌, All, contains, Bool-cases, inl, inr,
}
use bundle_controller.Types.{ObjectReference, reference_eq, annotation_ignore_option_on_delete}
use bundle_controller.Resource.{Unstructured, get_reference, is_skiped_on}
use bundle_controller.Cluster.{Patch, Client, Platform, IsFaithful}
use bundle_controller.Diff.{DiffResult, diff}
use bundle_controller.Diff.Partition.{references}
use bundle_controller.Diff.Members.{All-creats_diff, All-applys_diff}
use bundle_controller.Diff.Removes.{IsPlain, contains-removes_diff}
use bundle_controller.Sync.{
  SyncOptions, Progress, remove_one, create_all, apply_all, remove_all, run_diff, sync_diff,
}
use bundle_controller.Sync.Moves.{note_removed-cluster, Moves, create_all-moves, apply_all-moves}

-- What a server documents of its writes and a part of what it keeps: writes of objects other than
-- `self`, and of namespaces, leave that part as it is.
pub record IsApart (c : Client) {A : Type 0} (view : c.State → A) (self : ObjectReference)
    : Type 0 where
  pub create-view :
      (obj : Unstructured) (s : c.State)
      → (get_reference obj == self) ≡ false
      → view (c.create obj s).1 ≡ view s
  pub patch-view :
      (patch : Patch) (obj : Unstructured) (s : c.State)
      → (get_reference obj == self) ≡ false
      → view (c.patch patch obj s).1 ≡ view s
  pub delete-view :
      (obj : Unstructured) (s : c.State)
      → (get_reference obj == self) ≡ false
      → view (c.delete obj s).1 ≡ view s
  pub namespace-view :
      (name : String) (s : c.State) → view (c.create_or_update_namespace name s).1 ≡ view s

abbrev pub Avoids : ObjectReference → List Unstructured → Type 0
Avoids self items = All (λ item. (get_reference item == self) ≡ false) items

Avoids-references :
    (self : ObjectReference) (items : List Unstructured)
    → contains (references items) self ≡ false
    → Avoids self items
Avoids-references self [] absent = tt
Avoids-references self (item ∷ items) absent =
    (ground arith, Avoids-references self items (ground arith))

module _ (p : Platform) (c : Client) (options : SyncOptions) {A : Type 0} (view : c.State → A)
    (self : ObjectReference) (apart : IsApart c view self) where
  abbrev Same : c.State → c.State → Type 0
  Same s t = view t ≡ view s

  Moves-Same : Moves c (λ k. (k == self) ≡ false) Same
  Moves-Same = record {
    same = λ s. refl;
    next = λ s t u first second. second ∙ first;
    create = apart.create-view;
    patch = apart.patch-view;
    namespace = apart.namespace-view;
  }

  remove_all-view :
      (items : List Unstructured) (g : Progress c)
      → Avoids self items
      → Same g.cluster (remove_all p c items g).cluster
  unfolding remove_all remove_one
  remove_all-view [] g avoids = refl
  remove_all-view (item ∷ items) g (other, rest) =
      remove_all-view items (remove_one p c item g) rest
      ∙ (elim (Bool-cases (is_skiped_on item annotation_ignore_option_on_delete)) [
        | inl skiped ↦ rw skiped refl
        | inr tried ↦ rw (tried, note_removed-cluster p c) (apart.delete-view item g.cluster other)
      ])

  pub sync_diff-view :
      (managed : List ObjectReference) (resources : List Unstructured) (s : c.State)
      → IsFaithful p
      → All IsPlain managed
      → contains managed self ≡ false
      → Avoids self resources
      → view (sync_diff p c (diff p managed resources) options s).cluster ≡ view s
  unfolding sync_diff run_diff
  sync_diff-view managed resources s faithful plain unmanaged avoids =
      let d : DiffResult = diff p managed resources in
      let start : Progress c = record { cluster = s; managed = []; errs = [] } in
      let created : Progress c = create_all p c options d.creats start in
      let applied : Progress c = apply_all p c options d.applys created in
      let absent : contains (references d.removes) self ≡ false =
        contains-removes_diff p managed resources self faithful plain ∙ ground (arith, unmanaged) in
      remove_all-view d.removes applied (Avoids-references self d.removes absent)
      ∙ apply_all-moves p c _ Same Moves-Same options d.applys created (
          All-applys_diff (λ item. (get_reference item == self) ≡ false) p managed resources avoids)
      ∙ create_all-moves p c _ Same Moves-Same options d.creats start (
          All-creats_diff (λ item. (get_reference item == self) ≡ false) p managed resources avoids)
