-- ===== src/Sync/Desired.antt =====
-- `Sync` against its abstract specification: which objects the cluster holds afterwards.
use bundle_controller.Base.{
  Bool, refl, false, not, ◌&&◌, ◌||◌, none, List, ◌≡◌, ◌∙◌, arith, ◌==◌, string_eq, contains, All,
  any, any-append, any-perm, any-members, any-contained, true, sym,
}
use mathlib.Core.List.{map-append}
use mathlib.Core.List.Perm
use bundle_controller.Types.{
  ObjectReference, reference_eq, annotation_ignore_option_on_update,
  annotation_ignore_option_on_delete,
}
use bundle_controller.Resource.{Unstructured, get_reference, is_skiped_on}
use bundle_controller.Cluster.{IsStorable, Client, Platform, IsFaithful}
use bundle_controller.Diff.{DiffResult, diff}
use bundle_controller.Diff.Partition.{references, diff-perm}
use bundle_controller.Diff.Members.{All-creats_diff, All-applys_diff}
use bundle_controller.Diff.Removes.{IsPlain, contains-removes_diff, removes_diff-never_skiped}
use bundle_controller.Sync.{SyncOptions, sync_diff, sync}
use bundle_controller.Sync.Store.{Contents, Same, denotes, IsStore}
use bundle_controller.Sync.Writes.{run_diff-lives}
use bundle_controller.Sync.References.{is_empty-nil}

-- A managed reference that is not rendered denotes the object of `r`, be it that the object is
-- rendered with another version.
abbrev pub outdated : Same → List ObjectReference → List Unstructured → ObjectReference → Bool
outdated same managed resources r =
    any (λ m. same m r && not (contains (references resources) m)) managed

-- What a synchronisation aims at: what is rendered lives, what a managed reference denotes that is
-- not rendered does not, and all else is left alone.
abbrev pub desired : Same → List ObjectReference → List Unstructured → Contents → Contents
desired same managed resources before r =
    (denotes same (references resources) r || before r) && not (outdated same managed resources r)

module _ (p : Platform) (c : Client) (options : SyncOptions) (same : Same)
    (lives fades : c.State → Contents) (store : IsStore c same lives fades) (r : ObjectReference)
    (other : (r.kind == "Namespace") ≡ false) where
  denotes-creats_applys :
      (managed : List ObjectReference) (resources : List Unstructured)
      → (denotes same (references (diff p managed resources).creats) r
          || denotes same (references (diff p managed resources).applys) r)
        ≡ denotes same (references resources) r
  denotes-creats_applys managed resources =
      let d : DiffResult = diff p managed resources in
      sym (any-append (λ k. same k r) (references d.creats) (references d.applys))
      ∙ rw (← map-append get_reference d.creats d.applys)
          (any-perm (λ k. same k r) (Perm.map get_reference (diff-perm p managed resources)))

  -- A synchronisation that reports no error does what it aims at: for every reference but those of
  -- namespaces, there is a living object afterwards exactly if the object was rendered or lived
  -- before, and no managed reference that is not rendered denotes it. An object that is being deleted
  -- does not live, and references that differ in the version may denote one object, which is then
  -- deleted though it was rendered. The rendered objects are storable, are not being deleted and do
  -- not ignore updates, the managed references are such as `GetReference` returns, the map is visited
  -- faithfully, and the server's writes do what it documents.
  pub sync-desired :
      (managed : List ObjectReference) (resources : List Unstructured) (s : c.State)
      → IsFaithful p
      → All IsPlain managed
      → All (IsStorable c) resources
      → All (λ item. fades s (get_reference item) ≡ false) resources
      → All (λ item. is_skiped_on item annotation_ignore_option_on_update ≡ false) resources
      → (sync p c managed resources options s).failure ≡ none
      → lives (sync p c managed resources options s).cluster r
        ≡ desired same managed resources (lives s) r
  unfolding sync sync_diff
  sync-desired managed resources s faithful plain storable calm updates fine =
      let d : DiffResult = diff p managed resources in
      let IsCalm : Unstructured → Type 0 = λ item. fades s (get_reference item) ≡ false in
      let Updates : Unstructured → Type 0 =
        λ item. is_skiped_on item annotation_ignore_option_on_update ≡ false in
      run_diff-lives p c options same lives fades store r other d s
        (All-creats_diff (IsStorable c) p managed resources storable)
        (All-applys_diff (IsStorable c) p managed resources storable)
        (All-creats_diff IsCalm p managed resources calm)
        (All-applys_diff IsCalm p managed resources calm)
        (All-applys_diff Updates p managed resources updates)
        (removes_diff-never_skiped p managed resources annotation_ignore_option_on_delete)
        (is_empty-nil _ fine)
      ∙ rw
          (any-members (λ k. same k r) (λ k. not (contains (references resources) k))
            (references d.removes) managed
            (λ k. contains-removes_diff p managed resources k faithful plain))
          (ground (arith, denotes-creats_applys managed resources))

  -- An upgrade to another version of the API deletes what it applies: where a managed reference is not
  -- rendered any more and its object is rendered with another version, a synchronisation that reports
  -- no error ends with that object gone or being deleted. The rendered objects are storable, are not
  -- being deleted before and do not ignore updates, the managed references are such as `GetReference`
  -- returns, the map is visited faithfully, and the server's writes do what it documents.
  pub sync-new_version :
      (managed : List ObjectReference) (resources : List Unstructured) (s : c.State)
      (old : ObjectReference)
      → IsFaithful p
      → All IsPlain managed
      → All (IsStorable c) resources
      → All (λ item. fades s (get_reference item) ≡ false) resources
      → All (λ item. is_skiped_on item annotation_ignore_option_on_update ≡ false) resources
      → contains managed old ≡ true
      → contains (references resources) old ≡ false
      → contains (references resources) r ≡ true
      → same old r ≡ true
      → (sync p c managed resources options s).failure ≡ none
      → lives (sync p c managed resources options s).cluster r ≡ false
  sync-new_version managed resources s old faithful plain storable calm updates owned unrendered
        rendered one fine =
      sync-desired managed resources s faithful plain storable calm updates fine
      ∙ rw
          (any-contained (λ m. same m r && not (contains (references resources) m)) old managed
            owned (rw (one, unrendered) refl))
          (ground arith)
