-- ===== src/Reconciler/Loop/Failures.antt =====
-- What a synchronisation that fails leaves in the status, and what a removal that fails leads to.
use bundle_controller.Base.{
  String, true, false, ◌||◌, some, ◌≡◌, refl, ◌∙◌, sym, arith, ==_refl, string_eq, All,
  Option-cases, inl, inr,
}
use bundle_controller.Types.{Bundle, phase_failed}
use bundle_controller.Cluster.{reply}
use bundle_controller.Applier.{BundleApplier}
use bundle_controller.Applier
use bundle_controller.Reconciler.Api.{Api, Libraries}
use bundle_controller.Reconciler.Wire.{Wire, carried, KeepsAllElse}
use bundle_controller.Reconciler.Dependencies.{check_depenency, check_depenency_iff, IsReady}
use bundle_controller.Reconciler.Loop.{
  reconcile, reconcile_bundle, sync_and_report, sync, note_failure, has_finalizer, is_new,
  is_finished, is_deleted, install, failing, updated, release,
}

module _ (l : Libraries) {State : Type 0} (api : Api State) (a : BundleApplier State) where
  -- A bundle that is neither disabled nor deleted, with a dependency that is missing or not
  -- installed, is not installed itself: whatever the applier is, the synchronisation fails with a
  -- message and changes neither the bundle nor the cluster.
  pub sync-unready :
      (b : Bundle) (s : State)
      → b.spec.disabled ≡ false
      → is_deleted b ≡ false
      → (All (IsReady api b s) b.spec.dependencies → ⊥)
      → (message : String) × (sync l api a b s
          ≡ record { failure = some message; bundle = b; state = s })
  unfolding sync
  sync-unready b s enabled present unready = elim (Option-cases (check_depenency api b s)) [
    | inl ready ↦ absurd (unready ((check_depenency_iff api b s).0 ready))
    | inr (message, blocked) ↦ (message, simp (enabled, present, install, blocked))
  ]

  pub reconcile-sync :
      (namespace name : String) (b : Bundle) (s : State)
      → api.get_bundle namespace name s ≡ reply b
      → (is_new l b || is_finished l b) ≡ false
      → reconcile l api a namespace name s ≡ sync_and_report l api a b s
  unfolding reconcile reconcile_bundle
  reconcile-sync namespace name b s read settled =
      let not_new : is_new l b ≡ false = ground arith in
      let not_finished : is_finished l b ≡ false = ground arith in
      rw (read, not_new, not_finished) refl

  module _ (namespace name : String) (b answer out : Bundle) (s t : State) (message : String) where
    abbrev written : Bundle
    written = record out { status = record out.status { phase = phase_failed; message = message } }

    -- A synchronisation that fails is reported. Let the stored bundle be neither new nor deleted
    -- and settled, let the applier keep its name, its namespace and its stored object, and let the
    -- API server take the written status, with its documented effect. Then the call returns the
    -- error, and the stored bundle is `Failed` with the error as its message and what the applier
    -- left in the other fields of the status, its values and times as they are carried to the server
    -- and back.
    pub reconcile-failure :
        (w : Wire) (u : State)
        → KeepsAllElse w api
        → api.get_bundle namespace name s ≡ reply b
        → (is_new l b || is_finished l b) ≡ false
        → sync l api a b s ≡ record { failure = some message; bundle = out; state = u }
        → out.namespace ≡ namespace
        → out.name ≡ name
        → api.get_bundle namespace name u ≡ reply b
        → api.update_status written u ≡ (reply answer, t)
        → (reconcile l api a namespace name s ≡ (failing message, t))
          × (api.get_bundle namespace name t
              ≡ reply (record b { status = carried w written.status }))
    unfolding sync_and_report note_failure
    reconcile-failure w u keeps read settled ran here named still written_ok = (
      reconcile-sync namespace name b s read settled ∙ rw (ran, written_ok) refl,
      rw (sym here, sym named) (keeps written b answer u t (rw (here, named) still) written_ok),
    )

    pub sync-deleted : is_deleted b ≡ true → sync l api a b s ≡ Applier.remove a b s
    unfolding sync
    sync-deleted deleted = ground (arith, deleted)

    abbrev left : Wire → Bundle
    left w = record b { status = carried w written.status }

    reconcile-released :
        (w : Wire) (other : BundleApplier State)
        → is_deleted b ≡ true
        → has_finalizer l b ≡ true
        → api.get_bundle namespace name t ≡ reply (left w)
        → reconcile l api other namespace name t ≡ updated false (api.update (release l (left w)) t)
    unfolding reconcile reconcile_bundle
    reconcile-released w other deleted guarded read =
        let old : is_new l (left w) ≡ false = ground arith in
        let finished : is_finished l (left w) ≡ true = ground (arith, ==_refl phase_failed) in
        rw (read, old, finished) refl

    -- A deleted bundle whose removal fails is given up. Let the bundle have its finalizer and be
    -- neither failed nor disabled, let the failed removal keep its name, its namespace and its
    -- stored object, and let the API server take the written status, with its documented effect.
    -- Then the call returns the error, and the next call takes the finalizer away whatever the
    -- applier is, so the removal is not tried again.
    pub reconcile-removal_failed :
        (w : Wire) (u : State) (other : BundleApplier State)
        → KeepsAllElse w api
        → api.get_bundle namespace name s ≡ reply b
        → is_deleted b ≡ true
        → has_finalizer l b ≡ true
        → is_finished l b ≡ false
        → Applier.remove a b s ≡ record { failure = some message; bundle = out; state = u }
        → out.namespace ≡ namespace
        → out.name ≡ name
        → api.get_bundle namespace name u ≡ reply b
        → api.update_status written u ≡ (reply answer, t)
        → (reconcile l api a namespace name s ≡ (failing message, t))
          × (reconcile l api other namespace name t
              ≡ updated false (api.update (release l (left w)) t))
    reconcile-removal_failed w u other keeps read deleted guarded unfinished ran here named still
          written_ok =
        let (first, stored) =
          reconcile-failure w u keeps read (ground arith) (sync-deleted deleted ∙ ran) here named
            still written_ok in
        (first, reconcile-released w other deleted guarded stored)
