-- ===== src/Reconciler/Loop/Deletion.antt =====
-- The end of a deleted bundle, with the default appliers.
use bundle_controller.Base.{
  String, true, false, none, List, ◌≡◌, refl, ◌∙◌, sym, ap, arith, ==_iff, string_eq, Result,
}
use mathlib.Core.Path.{subst}
use bundle_controller.Types.{Bundle, phase_disabled}
use bundle_controller.Cluster.{Client, Platform, reply}
use bundle_controller.Outcome.{Outcome}
use bundle_controller.Applier.{BundleApplier, remove}
use bundle_controller.Applier.Removal.{default_applier, remove-Disables}
use bundle_controller.Native.{TemplateFun, Tools}
use bundle_controller.Helm.Sdk.{Sdk}
use bundle_controller.Download.Host.{FileSystem}
use bundle_controller.Reconciler.Api.{Api, Libraries, IsLawful}
use bundle_controller.Reconciler.Loop.{
  reconcile, reconcile_bundle, sync_and_report, sync, note_failure, has_finalizer, is_new,
  is_finished, is_deleted, updated, release, done, finalizer_name,
}
use bundle_controller.Reconciler.Loop.Failures.{reconcile-sync}
use bundle_controller.Reconciler.Wire.{Wire, carried, KeepsAllElse}

module _ (p : Platform) (c : Client) (t : Tools) (h : Sdk c.State) (f : FileSystem c.State)
    (build : String → c.State → Result String) (template_fun : TemplateFun c.State)
    (cache_dir : String) (search_dirs : List String) (l : Libraries) (api : Api c.State) where
  abbrev pub appliers : BundleApplier c.State
  appliers = default_applier p c t h f build template_fun cache_dir search_dirs

  sync-removal :
      (b : Bundle) (s : c.State)
      → is_deleted b ≡ true
      → sync l api appliers b s ≡ remove appliers b s
  unfolding sync
  sync-removal b s deleted = ground (arith, deleted)

  reconcile-removal :
      (b answer : Bundle) (s after : c.State)
      → api.get_bundle b.namespace b.name s ≡ reply b
      → is_deleted b ≡ true
      → is_finished l b ≡ false
      → (remove appliers b s).failure ≡ none
      → api.update_status (remove appliers b s).bundle (remove appliers b s).state
        ≡ (reply answer, after)
      → reconcile l api appliers b.namespace b.name s ≡ (done, after)
  unfolding sync_and_report note_failure
  reconcile-removal b answer s after read deleted unfinished fine written =
      reconcile-sync l api appliers b.namespace b.name b s read (ground arith)
      ∙ rw (sync-removal b s deleted) (simp (note_failure, fine, written))

  reconcile-release :
      (namespace name : String) (b : Bundle) (s : c.State)
      → api.get_bundle namespace name s ≡ reply b
      → is_deleted b ≡ true
      → has_finalizer l b ≡ true
      → b.status.phase ≡ phase_disabled
      → reconcile l api appliers namespace name s ≡ updated false (api.update (release l b) s)
  unfolding reconcile reconcile_bundle
  reconcile-release namespace name b s read deleted guarded disabled =
      let old : is_new l b ≡ false = ground arith in
      let finished : is_finished l b ≡ true =
        ground (arith, ==_iff b.status.phase phase_disabled) in
      rw (read, old, finished) refl

  -- The bundle that is stored after its removal.
  abbrev pub stored_after : Wire → Bundle → c.State → Bundle
  stored_after w b s = record (remove appliers b s).bundle {
    status = carried w (remove appliers b s).bundle.status;
  }

  -- A deleted bundle is removed and then released. Let it have its finalizer and be neither failed
  -- nor disabled, let its removal succeed and leave the stored object as it is, and let the API
  -- server take the written status, with its documented effect. Then the call succeeds, the stored
  -- bundle is `Disabled`, and the next call takes the finalizer away, whatever the kind of the
  -- bundle.
  pub reconcile-deletion :
      (w : Wire) (b answer : Bundle) (s after : c.State)
      → KeepsAllElse w api
      → IsLawful l
      → api.get_bundle b.namespace b.name s ≡ reply b
      → is_deleted b ≡ true
      → has_finalizer l b ≡ true
      → is_finished l b ≡ false
      → (remove appliers b s).failure ≡ none
      → api.get_bundle b.namespace b.name (remove appliers b s).state ≡ reply b
      → api.update_status (remove appliers b s).bundle (remove appliers b s).state
        ≡ (reply answer, after)
      → (reconcile l api appliers b.namespace b.name s ≡ (done, after))
        × (api.get_bundle b.namespace b.name after ≡ reply (stored_after w b s))
        × ((stored_after w b s).status.phase ≡ phase_disabled)
        × (has_finalizer l (release l (stored_after w b s)) ≡ false)
        × (reconcile l api appliers b.namespace b.name after
            ≡ updated false (api.update (release l (stored_after w b s)) after))
  reconcile-deletion w b answer s after keeps laws read deleted guarded unfinished fine still
        written =
      let o : Outcome c.State = remove appliers b s in
      let (disables, spec) =
        remove-Disables p c t h f build template_fun cache_dir search_dirs b s in
      let left : Bundle = record b { status = o.bundle.status } in
      let written_left =
        subst (λ (x : Bundle). api.update_status x o.state ≡ (reply answer, after)) spec written in
      let stored : api.get_bundle b.namespace b.name after ≡ reply (stored_after w b s) =
        keeps left b answer o.state after still written_left
        ∙ ap (λ (x : Bundle). reply (record x { status = carried w o.bundle.status })) (sym spec) in
      (
        reconcile-removal b answer s after read deleted unfinished fine written,
        stored,
        disables fine,
        laws.contains-remove (stored_after w b s).finalizers finalizer_name,
        reconcile-release b.namespace b.name (stored_after w b s) after stored
            (ap is_deleted spec ∙ deleted) (ap (has_finalizer l) spec ∙ guarded) (disables fine),
      )
