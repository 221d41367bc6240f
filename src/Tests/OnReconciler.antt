-- ===== src/Tests/OnReconciler.antt =====
-- The reconciler on a server with one bundle, and an applier that fails.
use bundle_controller.Base.{
  true, false, none, some, [], ◌∷◌, ◌≡◌, ◌↔◌, refl, ok, err, All, string_eq, lookup, lower_equals,
  Bool-cases, inl, inr,
}
use mathlib.Core.Path.{subst, ap}
use bundle_controller.Types.{ValuesFrom, Bundle, BundleSpec, BundleStatus, phase_failed}
use bundle_controller.Values.Data.{end, field, text, object, get, get_path, put}
use bundle_controller.Values.Codec.{full_fill}
use bundle_controller.Values.Merge.{merge_maps}
use bundle_controller.Cluster.{Reply, reply, failed}
use bundle_controller.Outcome.{Outcome}
use bundle_controller.Applier.{Methods, BundleApplier, apply, remove, new_default_appliers}
use bundle_controller.Reconciler.Dependencies.{check_depenency, check_depenency_iff, IsReady}
use bundle_controller.Reconciler.Values.{resolve_values_ref, add_references, add_reference}
use bundle_controller.Reconciler.Values.Precedence.{resolve_values_ref-get_path}
use bundle_controller.Reconciler.Loop.{Reconciled, reconcile, sync, sync_and_report, has_finalizer}
use bundle_controller.Reconciler.Loop.Finalizers.{
  reconcile-applier_idle, reconcile-update_idle, reconcile-registered,
}
use bundle_controller.Reconciler.Loop.Failures.{reconcile-failure, reconcile-removal_failed}
use bundle_controller.Tests.Samples.{
  empty_status, kustomize_spec, new_bundle, registered_bundle, installed_bundle, deleted_bundle,
  image_values, image_values-IsMap,
}
use bundle_controller.Reconciler.Wire.{carried, KeepsAllElse}
use bundle_controller.Values.Codec.{unmarshal_json, marshal_json}
use bundle_controller.Values.Nulls.{remove_null_fields}
use bundle_controller.Tests.Servers.{
  wire, one_bundle, names, libraries, libraries-IsLawful, missing_error,
}

abbrev refuse : Bundle → Bundle → Outcome Bundle
refuse b s = record { failure = some "refused"; bundle = b; state = s }

-- Every method fails.
abbrev refusing_methods : Methods Bundle
refusing_methods = record {
  apply = λ b into s. refuse b s;
  remove = refuse;
  template = λ b into s. (err "refused", b, s);
}

abbrev refusing : BundleApplier Bundle
refusing = record {
  appliers = new_default_appliers refusing_methods refusing_methods refusing_methods;
  download = λ b s. (ok "/cache/web-v1", b, s);
}

abbrev undownloadable : BundleApplier Bundle
undownloadable = record refusing { download = λ b s. (err "no such host", b, s) }

-- Dependencies: the bundle itself, which is installed or not.
abbrev dependent_spec : BundleSpec
dependent_spec = record kustomize_spec {
  dependencies =
      record { api_version = ""; kind = ""; namespace = ""; name = "web"; other = "" } ∷ [];
}

abbrev dependent : Bundle
dependent = record registered_bundle { spec = dependent_spec }

check_depenency_iff_example :
    (check_depenency one_bundle dependent installed_bundle ≡ none)
    ↔ All (IsReady one_bundle dependent installed_bundle) dependent_spec.dependencies
check_depenency_iff_example = check_depenency_iff one_bundle dependent installed_bundle

-- Values from a secret, below those of the bundle.
abbrev from_secret : ValuesFrom
from_secret = record { kind = "Secret"; name = "auth"; prefix = ""; optional = false }

abbrev from_nothing : ValuesFrom
from_nothing = record { kind = "configmaps"; name = "gone"; prefix = ""; optional = true }

abbrev valued : Bundle
valued = record registered_bundle {
  spec = record kustomize_spec { values_from = from_secret ∷ from_nothing ∷ [] };
}

abbrev resolved : Bundle
resolved = record valued {
  spec = record valued.spec {
    values = full_fill libraries.json (record {
      raw = none;
      object = some (merge_maps (field "set" (text "user=root") end) image_values);
    });
  };
}

valued-resolved : resolve_values_ref libraries one_bundle valued valued ≡ ok resolved
unfolding resolve_values_ref add_references add_reference lower_equals put
valued-resolved = refl

resolve_values_ref-get_path_example :
    get_path
      ("image" ∷ "tag" ∷ [])
      (some (object (merge_maps (field "set" (text "user=root") end) image_values)))
    ≡ some (text "1.2")
unfolding get_path get full_fill
resolve_values_ref-get_path_example =
    resolve_values_ref-get_path libraries one_bundle valued resolved valued
      (merge_maps (field "set" (text "user=root") end) image_values) image_values
      ("image" ∷ "tag" ∷ []) (text "1.2") refl image_values-IsMap refl refl valued-resolved refl

reconcile-applier_idle_example :
    reconcile libraries one_bundle refusing "shop" "web" new_bundle
    ≡ reconcile libraries one_bundle undownloadable "shop" "web" new_bundle
reconcile-applier_idle_example =
    reconcile-applier_idle libraries one_bundle refusing undownloadable "shop" "web" new_bundle
      new_bundle refl refl

abbrev ignored : Bundle → Bundle → Reply Bundle × Bundle
ignored b s = (failed missing_error, s)

reconcile-update_idle_example :
    reconcile libraries
      (record one_bundle { update = ignored })
      refusing
      "shop"
      "web"
      registered_bundle
    ≡ reconcile libraries one_bundle refusing "shop" "web" registered_bundle
reconcile-update_idle_example =
    reconcile-update_idle libraries one_bundle refusing ignored "shop" "web" registered_bundle
      registered_bundle refl refl

reconcile-registered_example :
    (reconcile libraries one_bundle refusing "shop" "web" new_bundle
      ≡ (record { requeue = true; failure = none }, registered_bundle))
    × (has_finalizer libraries registered_bundle ≡ true)
    × (reconcile libraries one_bundle refusing "shop" "web" registered_bundle
        ≡ sync_and_report libraries one_bundle refusing registered_bundle registered_bundle)
reconcile-registered_example =
    reconcile-registered libraries one_bundle refusing "shop" "web" new_bundle registered_bundle
      new_bundle registered_bundle libraries-IsLawful refl refl refl refl

abbrev with_status : BundleStatus → Reply Bundle → Reply Bundle
with_status status (failed e) = failed e
with_status status (reply b) = reply (record b { status = status })

one_bundle-KeepsAllElse : KeepsAllElse wire one_bundle
one_bundle-KeepsAllElse b stored answer s t read written =
    elim (Bool-cases (names s b.namespace b.name)) [
      | inr other ↦ absurd (cc (simp other at read))
      | inl same ↦
          subst
            (λ x.
              one_bundle.get_bundle b.namespace b.name x
              ≡ reply (record stored { status = carried wire b.status }))
            (ap (λ w. w.1) (simp same at written))
            (simp same (ap (with_status (carried wire b.status)) (simp same at read)))
    ]

abbrev failed_bundle : Bundle
failed_bundle = record registered_bundle {
  status = record empty_status { phase = phase_failed; message = "refused" };
}

-- The values of the bundle, resolved.
abbrev filled_bundle : Bundle
filled_bundle = record registered_bundle {
  spec = record kustomize_spec {
    values = full_fill libraries.json (record { raw = none; object = some image_values });
  };
}

abbrev refused_result : Reconciled
refused_result = record { requeue = false; failure = some "refused" }

install_refused :
    sync libraries one_bundle refusing registered_bundle registered_bundle
    ≡ refuse filled_bundle registered_bundle
unfolding sync check_depenency resolve_values_ref add_references apply lookup new_default_appliers
    full_fill merge_maps put get
install_refused = refl

reconcile-failure_example :
    (reconcile libraries one_bundle refusing "shop" "web" registered_bundle
      ≡ (refused_result, failed_bundle))
    × (one_bundle.get_bundle "shop" "web" failed_bundle ≡ reply failed_bundle)
unfolding unmarshal_json marshal_json remove_null_fields get
reconcile-failure_example =
    reconcile-failure libraries one_bundle refusing "shop" "web" registered_bundle failed_bundle
      filled_bundle registered_bundle failed_bundle "refused" wire registered_bundle
      one_bundle-KeepsAllElse refl refl install_refused refl refl refl refl

abbrev given_up : Bundle
given_up = record deleted_bundle {
  status = record deleted_bundle.status { phase = phase_failed; message = "refused" };
}

removal_refused :
    remove refusing deleted_bundle deleted_bundle ≡ refuse deleted_bundle deleted_bundle
unfolding remove lookup new_default_appliers
removal_refused = refl

reconcile-removal_failed_example :
    (reconcile libraries one_bundle refusing "shop" "web" deleted_bundle
      ≡ (refused_result, given_up))
    × (reconcile libraries one_bundle undownloadable "shop" "web" given_up
        ≡ (record { requeue = false; failure = none }, record given_up { finalizers = [] }))
unfolding unmarshal_json marshal_json remove_null_fields get
reconcile-removal_failed_example =
    reconcile-removal_failed libraries one_bundle refusing "shop" "web" deleted_bundle given_up
      deleted_bundle deleted_bundle given_up "refused" wire deleted_bundle undownloadable
      one_bundle-KeepsAllElse refl refl refl refl removal_refused refl refl refl refl
