-- ===== src/Sync/Managed.antt =====
-- The references that `SyncDiff` returns, when it succeeds and when it fails.
use mathlib.Core.List.{append_assoc, append-nil, map-append}
use mathlib.Core.List.Perm
use bundle_controller.Base.{
  none, List, [], ◌∷◌, ◌++◌, ◌≡◌, refl, ◌∙◌, ap, sym, All, Bool-cases, inl, inr, Perm,
}
use bundle_controller.Types.{
  ObjectReference, reference_eq, annotation_ignore_option_on_delete,
  annotation_ignore_option_on_update,
}
use bundle_controller.Resource.{Unstructured, get_reference, is_skiped_on}
use bundle_controller.Cluster.{IsStorable, Client, Platform, KeepsReferences, IsFaithful}
use bundle_controller.Diff.{DiffResult, diff}
use bundle_controller.Diff.Partition.{references, diff-perm}
use bundle_controller.Sync.{
  SyncOptions, Progress, create_one, apply_one, remove_one, create_all, apply_all, remove_all,
  apply_options, prepare_namespace, run_diff, sync_diff, sync,
}
use bundle_controller.Sync.References.{
  Adds, get_reference-apply_resource, note_created-managed, note_applied-managed, note_applied-errs,
  note_removed-managed, is_empty-nil,
}

module _ (p : Platform) (c : Client) (options : SyncOptions) where
  create_one-managed :
      KeepsReferences c
      → (item : Unstructured) (g : Progress c) → IsStorable c item
      → (create_one p c options item g).errs ≡ []
      → (g.errs ≡ []) × Adds p c (get_reference item) g (create_one p c options item g)
  unfolding create_one
  create_one-managed keeps item g named h =
      rw
        (get_reference-apply_resource c keeps item (apply_options p c options)
          (prepare_namespace p c options item g.cluster) named)
        at (note_created-managed p c _ g h)

  create_all-managed :
      KeepsReferences c
      → (items : List Unstructured) (g : Progress c) → All (IsStorable c) items
      → (create_all p c options items g).errs ≡ []
      → (g.errs ≡ []) × ((create_all p c options items g).managed ≡ g.managed ++ references items)
  unfolding create_all
  create_all-managed keeps [] g named h = (h, sym (append-nil g.managed))
  create_all-managed keeps (item ∷ items) g (named, ns) h =
      let (later, all) = create_all-managed keeps items (create_one p c options item g) ns h in
      let (now, one) = create_one-managed keeps item g named later in
      (now, all ∙ rw (one, append_assoc))

  apply_one-managed :
      (item : Unstructured) (g : Progress c)
      → Adds p c (get_reference item) g (apply_one p c options item g)
  unfolding apply_one
  apply_one-managed item g =
      elim (Bool-cases (is_skiped_on item annotation_ignore_option_on_update)) [
        | inl skipped ↦ rw skipped
        | inr applied ↦ rw applied (note_applied-managed p c _ _)
      ]

  apply_one-errs :
      (item : Unstructured) (g : Progress c)
      → (apply_one p c options item g).errs ≡ []
      → g.errs ≡ []
  unfolding apply_one
  apply_one-errs item g h =
      elim (Bool-cases (is_skiped_on item annotation_ignore_option_on_update)) [
        | inl skipped ↦ rw skipped at h
        | inr applied ↦ note_applied-errs p c _ _ (rw applied at h)
      ]

  pub apply_all-managed :
      (items : List Unstructured) (g : Progress c)
      → (apply_all p c options items g).managed ≡ g.managed ++ references items
  unfolding apply_all
  apply_all-managed [] g = sym (append-nil g.managed)
  apply_all-managed (item ∷ items) g =
      apply_all-managed items (apply_one p c options item g)
      ∙ rw (apply_one-managed item g, append_assoc)

  pub create_all-errs :
      (items : List Unstructured) (g : Progress c)
      → (create_all p c options items g).errs ≡ []
      → g.errs ≡ []
  unfolding create_all create_one
  create_all-errs [] g h = h
  create_all-errs (item ∷ items) g h =
      (note_created-managed p c _ g (create_all-errs items (create_one p c options item g) h)).0

  pub apply_all-errs :
      (items : List Unstructured) (g : Progress c)
      → (apply_all p c options items g).errs ≡ []
      → g.errs ≡ []
  unfolding apply_all
  apply_all-errs [] g h = h
  apply_all-errs (item ∷ items) g h =
      apply_one-errs item g (apply_all-errs items (apply_one p c options item g) h)

module _ (p : Platform) (c : Client) where
  remove_one-managed :
      (item : Unstructured) (g : Progress c)
      → (remove_one p c item g).errs ≡ []
      → (g.errs ≡ []) × ((remove_one p c item g).managed ≡ g.managed)
  unfolding remove_one
  remove_one-managed item g h =
      elim (Bool-cases (is_skiped_on item annotation_ignore_option_on_delete)) [
        | inl skipped ↦ rw skipped (rw skipped at h, refl)
        | inr tried ↦ rw tried (note_removed-managed p c item _ g (rw tried at h))
      ]

  remove_all-managed :
      (items : List Unstructured) (g : Progress c)
      → (remove_all p c items g).errs ≡ []
      → (g.errs ≡ []) × ((remove_all p c items g).managed ≡ g.managed)
  unfolding remove_all
  remove_all-managed [] g h = (h, refl)
  remove_all-managed (item ∷ items) g h =
      let (later, all) = remove_all-managed items (remove_one p c item g) h in
      let (now, one) = remove_one-managed item g later in (now, all ∙ one)

  run_diff-managed :
      KeepsReferences c
      → (d : DiffResult) (options : SyncOptions) (s : c.State) → All (IsStorable c) d.creats
      → (run_diff p c d options s).errs ≡ []
      → (run_diff p c d options s).managed ≡ references d.creats ++ references d.applys
  unfolding run_diff
  run_diff-managed keeps d options s named h =
      let (applied, removed) = remove_all-managed d.removes _ h in
      let created = apply_all-errs p c options d.applys _ applied in
      removed
      ∙ apply_all-managed p c options d.applys _
      ∙ ap (λ l. l ++ references d.applys)
          (create_all-managed p c options keeps d.creats _ named created).1

  -- After a run that reports no error the managed references are those of the rendered resources,
  -- each as often as it was rendered. The created resources are storable, the server keeps the
  -- identity of what it is sent, and the map is visited and the list sorted faithfully.
  pub sync-perm :
      (managed : List ObjectReference) (resources : List Unstructured) (options : SyncOptions)
      (s : c.State)
      → IsFaithful p
      → KeepsReferences c
      → All (IsStorable c) (diff p managed resources).creats
      → (sync p c managed resources options s).failure ≡ none
      → Perm (sync p c managed resources options s).managed (references resources)
  unfolding sync sync_diff
  sync-perm managed resources options s faithful keeps named fine =
      let d : DiffResult = diff p managed resources in
      Perm.trans (faithful.sort_slice-perm _ _) (
        rw
          (
            run_diff-managed keeps d options s named (is_empty-nil _ fine),
            ← map-append get_reference d.creats d.applys,
          )
          (Perm.map get_reference (diff-perm p managed resources)))
