-- ===== src/Reconciler/Loop.antt =====
-- `Sync` and `Reconcile`.
pub mod Installs
pub mod Cleanup
pub mod Finalizers
pub mod Failures
pub mod Deletion
pub mod Lifecycle
pub mod Settled
pub mod Apart
use bundle_controller.Base.{
  String, Bool, true, false, not, ◌&&◌, ◌||◌, Option, none, some, ◌==◌, string_eq, if◌then◌else◌,
  Result, ok, err,
}
use bundle_controller.Types.{Bundle, phase_failed, phase_disabled}
use bundle_controller.Cluster.{ApiError, Reply, reply, failed}
use bundle_controller.Outcome.{Outcome}
use bundle_controller.Applier.{BundleApplier}
use bundle_controller.Applier
use bundle_controller.Reconciler.Api.{Api, Libraries}
use bundle_controller.Reconciler.Dependencies.{check_depenency}
use bundle_controller.Reconciler.Values.{resolve_values_ref}

abbrev pub finalizer_name : String
finalizer_name = "bundle.kubegems.io/finalizer"

-- `ctrl.Result` and the error of a call.
pub record Reconciled : Type 0 where
  pub requeue : Bool
  pub failure : Option String

abbrev pub done : Reconciled
done = record { requeue = false; failure = none }

abbrev failing : String → Reconciled
failing message = record { requeue = false; failure = some message }

abbrev pub is_deleted : Bundle → Bool
is_deleted b = elim b.deletion_timestamp [ none ↦ false | some _ ↦ true ]

module _ (l : Libraries) where
  abbrev pub has_finalizer : Bundle → Bool
  has_finalizer b = l.contains_finalizer b.finalizers finalizer_name

  -- The bundle is to be given its finalizer.
  abbrev pub is_new : Bundle → Bool
  is_new b = not (is_deleted b) && not (has_finalizer b)

  -- The bundle is deleted, and its finalizer is to be taken away.
  abbrev pub is_finished : Bundle → Bool
  is_finished b =
      is_deleted b
      && has_finalizer b
      && (b.status.phase == phase_failed || b.status.phase == phase_disabled)

  abbrev pub register : Bundle → Bundle
  register b = record b { finalizers = l.add_finalizer b.finalizers finalizer_name }

  abbrev pub release : Bundle → Bundle
  release b = record b { finalizers = l.remove_finalizer b.finalizers finalizer_name }

module _ {State : Type 0} where
  -- An update with nothing after it but a return.
  abbrev pub updated : Bool → Reply Bundle × State → Reconciled × State
  updated requeue (failed e, s) = (failing e.message, s)
  updated requeue (reply answer, s) = (record { requeue = requeue; failure = none }, s)

  -- The error of the synchronisation goes into the status.
  unfoldable pub note_failure : Outcome State → Bundle
  note_failure o = elim o.failure [
    | none ↦ o.bundle
    | some message ↦ record o.bundle {
      status = record o.bundle.status { phase = phase_failed; message = message };
    }
  ]

  abbrev pub status_written : Option String → Reply Bundle × State → Reconciled × State
  status_written failure (failed e, s) = (failing e.message, s)
  status_written failure (reply answer, s) = (record { requeue = false; failure = failure }, s)

module _ (l : Libraries) {State : Type 0} (api : Api State) (a : BundleApplier State) where
  abbrev resolve_and_apply : Bundle → State → Result Bundle → Outcome State
  resolve_and_apply b s (err message) = record { failure = some message; bundle = b; state = s }
  resolve_and_apply b s (ok resolved) = Applier.apply a resolved s

  install : Bundle → State → Outcome State
  install b s = elim (check_depenency api b s) [
    | some message ↦ record { failure = some message; bundle = b; state = s }
    | none ↦ resolve_and_apply b s (resolve_values_ref l api b s)
  ]

  -- `Sync`
  unfoldable pub sync : Bundle → State → Outcome State
  unfolding install
  sync b s = if b.spec.disabled || is_deleted b then Applier.remove a b s else install b s

  -- The synchronisation, whose status is written whether it failed or not.
  unfoldable pub sync_and_report : Bundle → State → Reconciled × State
  sync_and_report b s =
      let o = sync b s in status_written o.failure (api.update_status (note_failure o) o.state)

  unfoldable pub reconcile_bundle : Bundle → State → Reconciled × State
  reconcile_bundle b s =
      if is_new l b
      then updated true (api.update (register l b) s)
      else if is_finished l b
      then updated false (api.update (release l b) s)
      else sync_and_report b s

  abbrev reconcile_reply : Reply Bundle → State → Reconciled × State
  reconcile_reply (failed e) s = if e.not_found then (done, s) else (failing e.message, s)
  reconcile_reply (reply b) s = reconcile_bundle b s

  -- `Reconcile`
  unfoldable pub reconcile : String → String → State → Reconciled × State
  reconcile namespace name s = reconcile_reply (api.get_bundle namespace name s) s
