-- ===== src/Helm/Apply/Apart.antt =====
-- What the helm applier leaves alone.
use bundle_controller.Base.{
  String, Option, none, some, List, ◌≡◌, refl, ◌==◌, string_eq, Result, ok, err, Bool-cases, inl,
  inr, arith,
}
use bundle_controller.Types.{Bundle, phase_disabled}
use bundle_controller.Manifest.{Document}
use bundle_controller.Helm.Sdk.{Release, Sdk}
use bundle_controller.Helm.Apply.{
  apply, remove, record_release, record_removal, apply_bundle, default_options,
}
use bundle_controller.Helm.Cli.Apart.{IsSdkApart, apply_chart-view, remove_chart-view}
use bundle_controller.Native.{target_namespace}

module _ {State A : Type 0} (h : Sdk State) (view : State → A) (apart : IsSdkApart h view)
    (decode : String → List Document) where
  record_release-state :
      (bundle : Bundle) (w : Result Release × State)
      → (record_release h decode bundle w).state ≡ w.1
  unfolding record_release
  record_release-state bundle (err message, s) = refl
  record_release-state bundle (ok rls, s) = ground arith

  pub apply-view :
      (bundle : Bundle) (into : String) (s : State)
      → view (apply h decode bundle into s).state ≡ view s
  unfolding apply apply_bundle
  apply-view bundle into s = rw record_release-state (
      apply_chart-view h view apart bundle.name (target_namespace bundle) into
        bundle.spec.values.object default_options s)

  record_removal-state :
      (bundle : Bundle) (w : Result (Option Release) × State)
      → (record_removal h decode bundle w).state ≡ w.1
  unfolding record_removal
  record_removal-state bundle (err message, s) = refl
  record_removal-state bundle (ok none, s) = refl
  record_removal-state bundle (ok (some rls), s) = refl

  pub remove-view : (bundle : Bundle) (s : State) → view (remove h decode bundle s).state ≡ view s
  unfolding remove
  remove-view bundle s = elim (Bool-cases (bundle.status.phase == phase_disabled)) [
    | inl disabled ↦ rw disabled refl
    | inr enabled ↦
        rw (enabled, record_removal-state)
          (remove_chart-view h view apart bundle.name (target_namespace bundle) s)
  ]
