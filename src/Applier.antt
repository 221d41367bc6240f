-- ===== src/Applier.antt =====
-- pkg/bundle/bundle.go: the applier of a bundle is chosen by its kind, after the download.
pub mod Default
pub mod Twice
pub mod Removal
pub mod Apart
use bundle_controller.Base.{
  String, ◌<>◌, none, some, [], ◌∷◌, Dict, lookup, string_eq, Result, ok, err,
}
use bundle_controller.Types.{Bundle, bundle_kind_helm, bundle_kind_kustomize, bundle_kind_template}
use bundle_controller.Outcome.{Outcome}

-- The interface `Apply`. A method gets a pointer to the bundle, and may change it.
pub record Methods (S : Type 0) : Type 0 where
  pub apply : Bundle → String → S → Outcome S
  pub remove : Bundle → S → Outcome S
  pub template : Bundle → String → S → Result String × Bundle × S

-- `BundleApplier`: the appliers by kind, and `Download` with the directories of the options.
pub record BundleApplier (S : Type 0) : Type 0 where
  pub appliers : Dict String (Methods S)
  pub download : Bundle → S → Result String × Bundle × S

unknown_kind : Bundle → String
unknown_kind bundle = "unknown bundle kind: " <> bundle.spec.kind

module _ {S : Type 0} (b : BundleApplier S) where
  template_in : Result String × Bundle × S → Result String × Bundle × S
  template_in (err message, bundle, s) = (err ("download: " <> message), bundle, s)
  template_in (ok into, bundle, s) = elim (lookup bundle.spec.kind b.appliers) [
    | none ↦ (err (unknown_kind bundle), bundle, s)
    | some a ↦ a.template bundle into s
  ]

  unfoldable pub template : Bundle → S → Result String × Bundle × S
  unfolding template_in unknown_kind
  template bundle s = template_in (b.download bundle s)

  pub apply_in : Result String × Bundle × S → Outcome S
  apply_in (err message, bundle, s) = record {
    failure = some ("download: " <> message);
    bundle = bundle;
    state = s;
  }
  apply_in (ok into, bundle, s) = elim (lookup bundle.spec.kind b.appliers) [
    | none ↦ record { failure = some (unknown_kind bundle); bundle = bundle; state = s }
    | some a ↦ a.apply bundle into s
  ]

  unfoldable pub apply : Bundle → S → Outcome S
  unfolding apply_in unknown_kind
  apply bundle s = apply_in (b.download bundle s)

  unfoldable pub remove : Bundle → S → Outcome S
  unfolding unknown_kind
  remove bundle s = elim (lookup bundle.spec.kind b.appliers) [
    | none ↦ record { failure = some (unknown_kind bundle); bundle = bundle; state = s }
    | some a ↦ a.remove bundle s
  ]

-- The appliers of `NewDefaultApply`.
unfoldable pub new_default_appliers :
    {S : Type 0} → Methods S → Methods S → Methods S → Dict String (Methods S)
new_default_appliers helm kustomize template =
    (bundle_kind_helm, helm)
    ∷ (bundle_kind_kustomize, kustomize)
    ∷ (bundle_kind_template, template)
    ∷ []
