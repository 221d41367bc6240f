-- ===== src/Helm/Apply/Phases.antt =====
-- The phase after each method, and what a repeated call does.
use bundle_controller.Base.{
  String, Option, none, some, List, ◌≡◌, ◌≢◌, refl, arith, ◌==◌, ==_iff, string_eq, Result, ok, err,
  Bool-cases, inl, inr, ◌∙◌,
}
use bundle_controller.Types.{Bundle, phase_disabled}
use bundle_controller.Manifest.{Document}
use bundle_controller.Helm.Sdk.{Release, Sdk}
use bundle_controller.Helm.Apply.{
  apply, apply_bundle, default_options, remove, record_release, record_removal,
}

module _ {State : Type 0} (h : Sdk State) (decode : String → List Document) where
  record_removal-disabled :
      (bundle : Bundle) (r : Result (Option Release) × State)
      → (record_removal h decode bundle r).failure ≡ none
      → (record_removal h decode bundle r).bundle.status.phase ≡ phase_disabled
  unfolding remove
  record_removal-disabled bundle (err message, s) fine = cc
  record_removal-disabled bundle (ok none, s) fine = refl
  record_removal-disabled bundle (ok (some rls), s) fine = refl

  remove-phase_disabled :
      (bundle : Bundle) (s : State)
      → (remove h decode bundle s).failure ≡ none
      → (remove h decode bundle s).bundle.status.phase ≡ phase_disabled
  unfolding remove
  remove-phase_disabled bundle s fine = elim (Bool-cases (bundle.status.phase == phase_disabled)) [
    | inl already ↦ rw already ((==_iff bundle.status.phase phase_disabled).0 already)
    | inr present ↦ rw present (record_removal-disabled bundle _ (rw present at fine))
  ]

  remove-of_disabled :
      (bundle : Bundle) (s : State)
      → bundle.status.phase ≡ phase_disabled
      → remove h decode bundle s ≡ record { failure = none; bundle = bundle; state = s }
  unfolding remove
  remove-of_disabled bundle s disabled = rw disabled

  -- A `Remove` of a helm bundle that succeeds disables the bundle, and the next `Remove` does
  -- nothing.
  pub remove_twice :
      (bundle : Bundle) (s : State)
      → (remove h decode bundle s).failure ≡ none
      → ((remove h decode bundle s).bundle.status.phase ≡ phase_disabled)
        × (remove h decode (remove h decode bundle s).bundle (remove h decode bundle s).state
            ≡ remove h decode bundle s)
  remove_twice bundle s fine =
      let disabled = remove-phase_disabled bundle s fine in
      (disabled, remove-of_disabled _ _ disabled ∙ ground (arith, fine))

  record_release-failed :
      (bundle : Bundle) (r : Result Release × State)
      → (record_release h decode bundle r).failure ≢ none
      → (record_release h decode bundle r).bundle ≡ record bundle {
        status = record bundle.status {
          resources = (record_release h decode bundle r).bundle.status.resources;
        };
      }
  unfolding apply
  record_release-failed bundle (err message, s) failed = refl
  record_release-failed bundle (ok rls, s) failed = ground arith

  -- A failed `Apply` of a helm bundle changes nothing of the bundle but, at most, the list of its
  -- resources.
  pub apply-failed_resources :
      (bundle : Bundle) (into : String) (s : State)
      → (apply h decode bundle into s).failure ≢ none
      → (apply h decode bundle into s).bundle ≡ record bundle {
        status = record bundle.status {
          resources = (apply h decode bundle into s).bundle.status.resources;
        };
      }
  unfolding apply
  apply-failed_resources bundle into s failed =
      record_release-failed bundle (apply_bundle h decode bundle into default_options s) failed
