-- ===== src/Sync/Kept.antt =====
-- No managed reference is lost by `SyncDiff`, whatever fails.
use bundle_controller.Base.{
  Bool, true, false, Option, none, some, List, [], ◌∷◌, ◌≡◌, ◌∙◌, arith, ◌||◌, not, ◌&&◌, ◌==◌,
  ==_iff, contains, contains-append, contains-perm, All, Bool-cases, inl, inr,
}
use bundle_controller.Types.{ObjectReference, reference_eq, annotation_ignore_option_on_delete}
use bundle_controller.Resource.{Unstructured, get_reference, is_skiped_on}
use bundle_controller.Cluster.{ApiError, Client, Platform, IsFaithful}
use bundle_controller.Diff.{diff}
use bundle_controller.Diff.Partition.{references, contains-applys_diff}
use bundle_controller.Diff.Removes.{IsPlain, contains-removes_diff, removes_diff-never_skiped}
use bundle_controller.Sync.{
  SyncOptions, Progress, remove_one, remove_all, run_diff, sync_diff, sync, note_removed,
}
use bundle_controller.Sync.Managed.{apply_all-managed}

-- A delete that failed otherwise than because the object was not there.
abbrev pub is_refusal : Option ApiError → Bool
is_refusal none = false
is_refusal (some e) = not e.not_found

module _ (p : Platform) (c : Client) (r : ObjectReference) where
  contains-note_removed :
      (item : Unstructured) (reply : Option ApiError × c.State) (g : Progress c)
      → contains (note_removed p c item reply g).managed r
        ≡ (contains g.managed r || is_refusal reply.0 && get_reference item == r)
  contains-note_removed item (none, s) g = ground arith
  contains-note_removed item (some e, s) g = elim (Bool-cases e.not_found) [
    | inl gone ↦ rw gone (ground arith)
    | inr kept ↦ rw (kept, contains-append) (ground arith)
  ]

  contains-remove_one :
      (item : Unstructured) (g : Progress c)
      → is_skiped_on item annotation_ignore_option_on_delete ≡ false
      → contains (remove_one p c item g).managed r ≡ (
          contains g.managed r || is_refusal (c.delete item g.cluster).0 && get_reference item == r)
  unfolding remove_one
  contains-remove_one item g tried =
      rw tried (contains-note_removed item (c.delete item g.cluster) g)

  -- The cluster refuses to delete the object of the reference, in every state.
  abbrev pub Refuses : Type 0
  Refuses =
      (item : Unstructured) (s : c.State)
      → get_reference item ≡ r
      → is_refusal (c.delete item s).0 ≡ true

  contains-remove_all :
      Refuses
      → (items : List Unstructured) (g : Progress c)
      → All (λ item. is_skiped_on item annotation_ignore_option_on_delete ≡ false) items
      → (contains g.managed r || contains (references items) r) ≡ true
      → contains (remove_all p c items g).managed r ≡ true
  unfolding remove_all
  contains-remove_all refuses [] g tried h = ground arith
  contains-remove_all refuses (item ∷ items) g (tried, all) h =
      contains-remove_all refuses items (remove_one p c item g) all (
        ground (
          arith,
          contains-remove_one item g tried,
          ==_iff (get_reference item) r,
          refuses item g.cluster,
        ))

  -- A managed reference is given up only where the cluster deleted its object or did not have it:
  -- if every delete of it is refused, it is managed afterwards, whether or not it is rendered and
  -- whatever else fails. The managed references are such as `GetReference` returns, and the map is
  -- visited and the list sorted faithfully.
  pub contains-sync_refused :
      (managed : List ObjectReference) (resources : List Unstructured) (options : SyncOptions)
      (s : c.State)
      → IsFaithful p
      → All IsPlain managed
      → Refuses
      → contains managed r ≡ true
      → contains (sync p c managed resources options s).managed r ≡ true
  unfolding sync sync_diff run_diff
  contains-sync_refused managed resources options s faithful plain refuses old =
      contains-perm r (faithful.sort_slice-perm _ _)
      ∙ contains-remove_all refuses _ _
          (removes_diff-never_skiped p managed resources annotation_ignore_option_on_delete)
          (rw (apply_all-managed p c options (diff p managed resources).applys _, contains-append)
            (ground (
              arith,
              contains-applys_diff p managed resources r old,
              contains-removes_diff p managed resources r faithful plain,
            )))
