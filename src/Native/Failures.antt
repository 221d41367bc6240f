-- ===== src/Native/Failures.antt =====
-- What a failed `Apply` or `Remove` leaves in the bundle, and what a successful `Remove` does.
use mathlib.Core.List.Perm
use bundle_controller.Base.{
  String, none, List, [], ◌≡◌, ◌≢◌, refl, arith, Result, ok, err, Option-cases, inl, inr,
}
use bundle_controller.Types.{Bundle, ObjectReference, phase_disabled}
use bundle_controller.Cluster.{Client, Platform, IsFaithful, KeepsReferences}
use bundle_controller.Diff.{diff, sort_resources}
use bundle_controller.Sync.{sync, new_default_sync_options}
use bundle_controller.Sync.Managed.{sync-perm}
use bundle_controller.Native.{
  TemplateFun, Tools, apply, apply_rendered, apply_resources, remove, note_removal,
}

module _ (p : Platform) (c : Client) (t : Tools) where
  apply_rendered-failed :
      (r : Result String × Bundle) (s : c.State)
      → (apply_rendered p c t r s).failure ≢ none
      → (apply_rendered p c t r s).bundle ≡ r.1
  unfolding apply apply_resources
  apply_rendered-failed (err message, bundle) s h = refl
  apply_rendered-failed (ok text, bundle) s h = ground arith

  -- A failed `Apply` of the native applier leaves the bundle as the template function gave it: no
  -- status is recorded, so neither are the resources that were created before the failure.
  pub apply-failed_bundle :
      (template_fun : TemplateFun c.State) (bundle : Bundle) (into : String) (s : c.State)
      → (apply p c t template_fun bundle into s).failure ≢ none
      → (apply p c t template_fun bundle into s).bundle ≡ (template_fun bundle into s).1
  unfolding apply
  apply-failed_bundle template_fun bundle into s h =
      apply_rendered-failed (template_fun bundle into s) s h

  -- A failed `Remove` of the native applier leaves the bundle as it was: what is still there stays
  -- recorded.
  pub remove-failed_bundle :
      (bundle : Bundle) (s : c.State)
      → (remove p c t bundle s).failure ≢ none
      → (remove p c t bundle s).bundle ≡ bundle
  unfolding remove
  remove-failed_bundle bundle s h = ground arith

  creats-nil : (managed : List ObjectReference) → (diff p managed []).creats ≡ []
  unfolding diff sort_resources
  creats-nil managed = refl

  managed-remove :
      (managed : List ObjectReference) (s : c.State)
      → IsFaithful p
      → KeepsReferences c
      → (sync p c managed [] new_default_sync_options s).failure ≡ none
      → (sync p c managed [] new_default_sync_options s).managed ≡ []
  managed-remove managed s faithful keeps fine = Perm.eq-nil (
      sync-perm p c managed [] new_default_sync_options s faithful keeps
        (rw (creats-nil managed) tt) fine)

  -- A `Remove` of the native applier that succeeds disables the bundle with no managed resource
  -- and no message, where the runtime and the server keep to their documentation.
  pub remove-disabled :
      (bundle : Bundle) (s : c.State)
      → IsFaithful p
      → KeepsReferences c
      → (remove p c t bundle s).failure ≡ none
      → (remove p c t bundle s).bundle ≡ record bundle {
        status = record bundle.status { resources = []; phase = phase_disabled; message = "" };
      }
  unfolding remove
  remove-disabled bundle s faithful keeps fine =
      let synced = sync p c bundle.status.resources [] new_default_sync_options s in
      elim (Option-cases synced.failure) [
        | inl none_failed ↦
            rw (none_failed, note_removal)
              (rw (managed-remove bundle.status.resources s faithful keeps none_failed))
        | inr (message, failed) ↦ absurd (ground arith)
      ]
