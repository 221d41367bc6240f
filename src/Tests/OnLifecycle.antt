-- ===== src/Tests/OnLifecycle.antt =====
-- A bundle that is created, registered, and changed while it is installed.
use mathlib.Core.Path.{subst}
use bundle_controller.Base.{
  true, false, Option, none, some, [], ◌≡◌, refl, ◌∙◌, sym, ap, ◌⊎◌, inl, inr, ok, string_eq,
  lookup,
}
use bundle_controller.Types.{Bundle, BundleSpec, phase_installed}
use bundle_controller.Cluster.{ApiError, Reply, reply, failed}
use bundle_controller.Applier.{Methods, BundleApplier, apply, new_default_appliers}
use bundle_controller.Reconciler.Api.{Api, other}
use bundle_controller.Reconciler.Dependencies.{check_depenency}
use bundle_controller.Reconciler.Values.{resolve_values_ref, add_references}
use bundle_controller.Reconciler.Loop.{
  reconcile, reconcile_bundle, sync, sync_and_report, note_failure, has_finalizer,
}
use bundle_controller.Reconciler.Loop.Lifecycle.{
  IsServer, Edit, changed, Step, reconciled, created, Reaches, here, next,
}
use bundle_controller.Reconciler.Loop.Lifecycle.Guarded.{Reaches-has_finalizer}
use bundle_controller.Reconciler.Loop.Lifecycle.Requeue.{reconcile-requeue_once}
use bundle_controller.Tests.Samples.{empty_status, kustomize_spec, new_bundle, registered_bundle}
use bundle_controller.Tests.Servers.{libraries, libraries-IsLawful, missing_error}

-- A server with one place for a bundle.
abbrev place : Api (Option Bundle)
place = record {
  get_bundle = λ namespace name s. elim s [ none ↦ failed missing_error | some b ↦ reply b ];
  get_secret = λ namespace name s. failed missing_error;
  get_config_map = λ namespace name s. failed missing_error;
  get_dependency = λ dep s. reply other;
  update = λ b s. elim s [
    | none ↦ (failed missing_error, none)
    | some old ↦ (reply b, some (record b { status = old.status }))
  ];
  update_status = λ b s. elim s [
    | none ↦ (failed missing_error, none)
    | some old ↦ (reply b, some (record old { status = b.status }))
  ];
  list = λ namespace s. record { items = [] };
}

abbrev stored : Option Bundle → Option Bundle
stored s = s

place-IsServer : IsServer place "shop" "web" stored
place-IsServer = record {
  get-stored = get_lem;
  update-written = λ b old answer s t there written.
      inl (ap (λ (w : Reply Bundle × Option Bundle). w.1) (sym written) ∙ rw there refl);
  update-refused = refused_lem;
  update_status-stored = λ b old s there. inl (rw there refl);
  update_status-none = λ b s gone. rw gone refl;
}
  where
    get_lem :
        (b : Bundle) (s : Option Bundle) → place.get_bundle "shop" "web" s ≡ reply b → s ≡ some b
    get_lem b none found = cc
    get_lem b (some c) found = cc

    refused_lem :
        (b : Bundle) (e : ApiError) (s t : Option Bundle) → place.update b s ≡ (failed e, t) → t ≡ s
    refused_lem b e none t refused = cc
    refused_lem b e (some old) t refused = cc

abbrev renamed_spec : BundleSpec
renamed_spec = record kustomize_spec { install_namespace = "web" }

-- Its user changes the spec while it is installed.
abbrev installing : Methods (Option Bundle)
installing = record {
  apply = λ b into s. record {
    failure = none;
    bundle = record b { status = record b.status { phase = phase_installed } };
    state = some (record b { spec = renamed_spec });
  };
  remove = λ b s. record { failure = none; bundle = b; state = s };
  template = λ b into s. (ok "", b, s);
}

abbrev applier : BundleApplier (Option Bundle)
applier = record {
  appliers = new_default_appliers installing installing installing;
  download = λ b s. (ok "/cache/web-v1", b, s);
}

abbrev at_end : Bundle
at_end = record registered_bundle {
  spec = renamed_spec;
  status = record empty_status { phase = phase_installed };
}

synced :
    (b : Bundle)
    → b ≡ new_bundle ⊎ b ≡ registered_bundle
    → (sync libraries place applier b (some b)).state ≡ some (record b { spec = renamed_spec })
unfolding sync check_depenency resolve_values_ref add_references apply new_default_appliers lookup
synced b (inl e) = rw e refl
synced b (inr e) = rw e refl

synced-Edit :
    (old : Bundle)
    → old ≡ new_bundle ⊎ old ≡ registered_bundle
    → (b : Bundle) → some old ≡ some b
    → Edit libraries (some b) (sync libraries place applier b (some old)).state
synced-Edit old known b same =
    subst
      (λ (x : Bundle). Edit libraries (some x) (sync libraries place applier x (some old)).state)
      (ap (λ (o : Option Bundle). elim o [ none ↦ old | some x ↦ x ]) same)
      (subst (λ o. Edit libraries (some old) o) (sym (synced old known)) (changed old renamed_spec))

registering :
    (reconcile libraries place applier "shop" "web" (some new_bundle)).1 ≡ some registered_bundle
unfolding reconcile reconcile_bundle
registering = refl

install_run :
    (reconcile libraries place applier "shop" "web" (some registered_bundle)).1 ≡ some at_end
unfolding reconcile reconcile_bundle sync_and_report note_failure sync check_depenency
    resolve_values_ref add_references apply new_default_appliers lookup
install_run = refl

history : Reaches libraries place applier "shop" "web" stored none (some at_end)
history =
    let called : (old : Bundle)
        → old ≡ new_bundle ⊎ old ≡ registered_bundle
        → Step libraries place applier "shop" "web" stored (some old)
            (reconcile libraries place applier "shop" "web" (some old)).1 =
      λ old known. reconciled (some old) (synced-Edit old known) in
    next
      (next (next here (created none (some new_bundle) new_bundle refl refl refl)) (
        subst (λ o. Step libraries place applier "shop" "web" stored (some new_bundle) o)
          registering (called new_bundle (inl refl))))
      (subst (λ o. Step libraries place applier "shop" "web" stored (some registered_bundle) o)
        install_run (called registered_bundle (inr refl)))

Reaches-has_finalizer_example : has_finalizer libraries at_end ≡ true
Reaches-has_finalizer_example =
    Reaches-has_finalizer libraries place applier "shop" "web" stored libraries-IsLawful
      place-IsServer none (some at_end) at_end refl history refl refl refl

reconcile-requeue_once_example :
    (reconcile libraries place applier "shop" "web"
      (some (record registered_bundle { spec = renamed_spec }))).0.requeue
    ≡ false
unfolding reconcile reconcile_bundle
reconcile-requeue_once_example =
    reconcile-requeue_once libraries place applier "shop" "web" stored libraries-IsLawful
      place-IsServer (some new_bundle) (some (record registered_bundle { spec = renamed_spec }))
      refl (changed registered_bundle renamed_spec)
