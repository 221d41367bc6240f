-- ===== src/Reconciler/Loop/Finalizers.antt =====
-- When the finalizer of a bundle changes, and what is not done then.
use bundle_controller.Base.{
  String, true, false, ◌||◌, none, some, ◌≡◌, refl, arith, string_eq, if◌then◌else◌,
}
use bundle_controller.Types.{Bundle}
use bundle_controller.Cluster.{Reply, reply}
use bundle_controller.Applier.{BundleApplier}
use bundle_controller.Applier
use bundle_controller.Reconciler.Api.{Api, Libraries, IsLawful}
use bundle_controller.Reconciler.Dependencies.{check_depenency-update}
use bundle_controller.Reconciler.Values.Precedence.{resolve_values_ref-update}
use bundle_controller.Reconciler.Loop.{
  reconcile, reconcile_bundle, sync_and_report, sync, has_finalizer, is_new, is_finished,
  is_deleted, finalizer_name, install, resolve_and_apply, register,
}

module _ (l : Libraries) {State : Type 0} (api : Api State) where
  reconcile_bundle-applier :
      (a other : BundleApplier State) (b : Bundle) (s : State)
      → (is_new l b || is_finished l b) ≡ true
      → reconcile_bundle l api a b s ≡ reconcile_bundle l api other b s
  unfolding reconcile_bundle
  reconcile_bundle-applier a other b s h = ground arith

  -- While a bundle waits for its finalizer, and once it is deleted with that finalizer and failed or
  -- disabled, the applier plays no part: nothing is installed before the finalizer is registered, and
  -- nothing is removed when a failed bundle that has the finalizer is deleted.
  pub reconcile-applier_idle :
      (a other : BundleApplier State) (namespace name : String) (b : Bundle) (s : State)
      → api.get_bundle namespace name s ≡ reply b
      → (is_new l b || is_finished l b) ≡ true
      → reconcile l api a namespace name s ≡ reconcile l api other namespace name s
  unfolding reconcile
  reconcile-applier_idle a other namespace name b s read h =
      rw read (reconcile_bundle-applier a other b s h)

  module _ (a : BundleApplier State) (update : Bundle → State → Reply Bundle × State) where
    -- An API server that does something else on an update.
    abbrev with_update : Api State
    with_update = record api { update = update }

    install-update : (b : Bundle) (s : State) → install l with_update a b s ≡ install l api a b s
    unfolding sync
    install-update b s = λ i. elim (check_depenency-update api update b s i) [
      | some message ↦ record { failure = some message; bundle = b; state = s }
      | none ↦ resolve_and_apply l api a b s (resolve_values_ref-update l api update b s i)
    ]

    sync-update : (b : Bundle) (s : State) → sync l with_update a b s ≡ sync l api a b s
    unfolding sync
    sync-update b s =
        λ i. if b.spec.disabled || is_deleted b then Applier.remove a b s else install-update b s i

    reconcile_bundle-update :
        (b : Bundle) (s : State)
        → (is_new l b || is_finished l b) ≡ false
        → reconcile_bundle l with_update a b s ≡ reconcile_bundle l api a b s
    unfolding reconcile_bundle sync_and_report
    reconcile_bundle-update b s h =
        let not_new : is_new l b ≡ false = ground arith in
        let not_finished : is_finished l b ≡ false = ground arith in
        rw (not_new, not_finished, sync-update b s)

    -- A bundle that is neither new nor deleted with its finalizer and failed or disabled is
    -- reconciled the same whatever the API server does on an update of the bundle, so its
    -- finalizers stay: the finalizer is added only to a bundle that lacks it and is not deleted,
    -- and taken away only from a deleted bundle that is failed or disabled.
    pub reconcile-update_idle :
        (namespace name : String) (b : Bundle) (s : State)
        → api.get_bundle namespace name s ≡ reply b
        → (is_new l b || is_finished l b) ≡ false
        → reconcile l with_update a namespace name s ≡ reconcile l api a namespace name s
    unfolding reconcile
    reconcile-update_idle namespace name b s read h = rw read (reconcile_bundle-update b s h)

  -- A new bundle is registered by the first call, which asks for a second, and the second one
  -- synchronises it: where the server takes the update and stores the bundle, the finalizer is
  -- then in place. The finalizer library keeps to its documentation.
  pub reconcile-registered :
      (a : BundleApplier State) (namespace name : String) (b answer : Bundle) (s t : State)
      → IsLawful l
      → api.get_bundle namespace name s ≡ reply b
      → is_new l b ≡ true
      → api.update (register l b) s ≡ (reply answer, t)
      → api.get_bundle namespace name t ≡ reply (register l b)
      → (reconcile l api a namespace name s ≡ (record { requeue = true; failure = none }, t))
        × (has_finalizer l (register l b) ≡ true)
        × (reconcile l api a namespace name t ≡ sync_and_report l api a (register l b) t)
  unfolding reconcile reconcile_bundle
  reconcile-registered a namespace name b answer s t laws read fresh taken stored =
      let guarded : has_finalizer l (register l b) ≡ true =
        laws.contains-add b.finalizers finalizer_name in
      let old : is_new l (register l b) ≡ false = ground arith in
      let alive : is_deleted b ≡ false = ground arith in
      (rw (read, fresh, taken) refl, guarded, rw (stored, old, alive) refl)
