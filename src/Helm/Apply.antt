-- ===== src/Helm/Apply.antt =====
-- pkg/bundle/helm/helm.go: the `Apply` interface for helm bundles.
pub mod Phases
pub mod Apart
use Prim.Native.Nat.{◌*◌, ◌/◌}
use bundle_controller.Base.{
  ℕ, String, ◌<>◌, Bool, true, false, Option, none, some, List, map, ◌==◌, string_eq, if◌then◌else◌,
  Result, ok, err,
}
use bundle_controller.Types.{Bundle, BundleStatus, ObjectReference, phase_installed, phase_disabled}
use bundle_controller.Values.Codec.{Values}
use bundle_controller.Values.Data.{Fields}
use bundle_controller.Resource.{get_reference}
use bundle_controller.Manifest.{Document, split_yaml}
use bundle_controller.Helm.Sdk.{Release, is_deployed, Sdk}
use bundle_controller.Helm.Cli.{ApplyOptions, apply_chart, remove_chart}
use bundle_controller.Outcome.{Outcome}

-- `convtime`: the time in whole seconds.
abbrev pub convtime : ℕ → ℕ
convtime t = t / 1_000_000_000 * 1_000_000_000

abbrev dry_run_options : ApplyOptions
dry_run_options = record { dry_run = true; repo = ""; version = "" }

abbrev pub default_options : ApplyOptions
default_options = record { dry_run = false; repo = ""; version = "" }

-- The fields that `getPreRelease` sets of a release.
record PreRelease : Type 0 where
  name : String
  namespace : String
  config : Option Fields

-- `getPreRelease`
abbrev get_pre_release : Bundle → PreRelease
get_pre_release bundle = record {
  name = bundle.name;
  namespace =
      if bundle.spec.install_namespace == ""
      then bundle.namespace
      else bundle.spec.install_namespace;
  config = bundle.spec.values.object;
}

module _ {State : Type 0} (h : Sdk State) (decode : String → List Document) where
  -- `parseResource`: the objects before an invalid document, if there is one, are used.
  unfoldable pub parse_resource : String → List ObjectReference
  parse_resource resources = map get_reference (split_yaml decode resources).objs

  -- `ApplyChart`, as `Template` and `Apply` call it.
  unfoldable pub apply_bundle : Bundle → String → ApplyOptions → State → Result Release × State
  apply_bundle bundle into options s =
      let rls = get_pre_release bundle in
      apply_chart h rls.name rls.namespace into rls.config options s

  manifest_of : Result Release × State → Result String × State
  manifest_of (err message, s) = (err message, s)
  manifest_of (ok rls, s) = (ok rls.manifest, s)

  unfoldable pub template : Bundle → String → State → Result String × State
  unfolding manifest_of
  template bundle into s = manifest_of (apply_bundle bundle into dry_run_options s)

  -- The status that a deployed release gives; `resources` are already set.
  unfoldable pub released_status : BundleStatus → Release → BundleStatus
  released_status status rls = record status {
    phase = phase_installed;
    message = rls.notes;
    namespace = rls.namespace;
    creation_timestamp = convtime rls.first_deployed;
    upgrade_timestamp = convtime rls.last_deployed;
    values = record { raw = none; object = rls.config };
    version = rls.chart.version;
    app_version = rls.chart.app_version;
  }

  record_release : Bundle → Result Release × State → Outcome State
  record_release bundle (err message, s) = record {
    failure = some message;
    bundle = bundle;
    state = s;
  }
  record_release bundle (ok rls, s) =
      let status : BundleStatus = record bundle.status {
        resources = parse_resource rls.manifest;
      } in
      if is_deployed rls
      then record {
        failure = none;
        bundle = record bundle { status = released_status status rls };
        state = s;
      }
      else record {
        failure = some ("apply not finished:" <> rls.description);
        bundle = record bundle { status = status };
        state = s;
      }

  unfoldable pub apply : Bundle → String → State → Outcome State
  unfolding record_release
  apply bundle into s = record_release bundle (apply_bundle bundle into default_options s)

  abbrev disabled_with : Bundle → String → Bundle
  disabled_with bundle message = record bundle {
    status = record bundle.status { phase = phase_disabled; message = message };
  }

  record_removal : Bundle → Result (Option Release) × State → Outcome State
  record_removal bundle (err message, s) = record {
    failure = some message;
    bundle = bundle;
    state = s;
  }
  record_removal bundle (ok none, s) = record {
    failure = none;
    bundle = disabled_with bundle "plugin not install";
    state = s;
  }
  record_removal bundle (ok (some rls), s) = record {
    failure = none;
    bundle = disabled_with bundle rls.description;
    state = s;
  }

  unfoldable pub remove : Bundle → State → Outcome State
  unfolding record_removal
  remove bundle s =
      if bundle.status.phase == phase_disabled
      then record { failure = none; bundle = bundle; state = s }
      else let rls = get_pre_release bundle in
        record_removal bundle (remove_chart h rls.name rls.namespace s)
