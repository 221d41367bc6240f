-- ===== src/Native.antt =====
-- pkg/bundle/native/native.go: renders a bundle and applies the difference, and
-- `KustomizeBuildFunc` of pkg/bundle/kustomize/kustomize.go.
pub mod Contents
pub mod Kustomize
pub mod Recorded
pub mod Settled
pub mod Stale
pub mod Apart
pub mod Failures
use bundle_controller.Base.{
  ℕ, String, ◌<>◌, Bool, true, false, not, ◌&&◌, Option, none, some, List, [], ◌∷◌, map, ◌==◌,
  string_eq, nat_eq, if◌then◌else◌, Result, ok, err, is_empty,
}
use bundle_controller.Types.{Bundle, BundleStatus, phase_installed, phase_disabled}
use bundle_controller.Values.Codec.{Json, Values, full_fill}
use bundle_controller.Values.Equal.{equal_map_values}
use bundle_controller.Resource.{Unstructured}
use bundle_controller.Cluster.{Client, Platform}
use bundle_controller.Manifest.{Document, Split, split_yaml}
use bundle_controller.Diff.{DiffResult, diff}
use bundle_controller.Sync.{Synced, sync, sync_diff, new_default_sync_options}
use bundle_controller.Outcome.{Outcome}

-- `TemplateFun`: the rendered text or an error, and the bundle, which a template function may change.
-- It reads the files and the cluster, and writes neither.
abbrev pub TemplateFun : Type 0 → Type 0
TemplateFun State = Bundle → String → State → Result String × Bundle

-- The kustomize library, as a build of a directory; the bundle is not looked at.
abbrev pub kustomize_build_func :
    {State : Type 0} → (String → State → Result String) → TemplateFun State
kustomize_build_func build bundle dir s = (build dir s, bundle)

-- What `Apply` is handed beside the bundle: the decoder of YAML streams, the scope that the REST
-- mapper finds for an object, the JSON codec, and the time of the call. `Apply` asks the mapper of
-- all objects before it writes anything, so what the mapper answers is fixed for the call.
pub record Tools : Type 0 where
  pub decode : String → List Document
  pub scope : Unstructured → Result String
  pub json : Json
  pub now : ℕ

-- An error of the object's kind gets the prefix of the mapper's errors too; the callers drop both.
unfoldable pub is_namespaced_scope : Tools → Unstructured → Result Bool
is_namespaced_scope t obj = elim (t.scope obj) [
  | err message ↦ err ("failed to get restmapping: " <> message)
  | ok scope ↦
      if scope == ""
      then err "scope cannot be identified, empty scope returned"
      else ok (not (scope == "root"))
]

-- `ok, _ := IsNamespacedScope(cli, item)`
abbrev value_or_false : Result Bool → Bool
value_or_false (ok b) = b
value_or_false (err message) = false

unfoldable pub place : Tools → String → Unstructured → Unstructured
place t ns item =
    if not (item.namespace == "")
    then item
    else if value_or_false (is_namespaced_scope t item)
    then record item { namespace = ns }
    else item

unfoldable pub set_namespace_if_not_set : Tools → String → List Unstructured → List Unstructured
set_namespace_if_not_set t ns list = map (place t ns) list

-- `Spec.InstallNamespace`, which defaults to the namespace of the bundle.
abbrev pub target_namespace : Bundle → String
target_namespace bundle =
    if bundle.spec.install_namespace == "" then bundle.namespace else bundle.spec.install_namespace

module _ (p : Platform) (c : Client) (t : Tools) where
  open c use {State}

  -- The status after a run that succeeded.
  unfoldable pub installed_status : Bundle → Synced p c → String → BundleStatus
  installed_status bundle synced ns = record bundle.status {
    resources = synced.managed;
    values = full_fill t.json (record { raw = none; object = bundle.spec.values.object });
    phase = phase_installed;
    version = bundle.spec.version;
    namespace = ns;
    upgrade_timestamp = t.now;
    creation_timestamp =
        if bundle.status.creation_timestamp == 0 then t.now else bundle.status.creation_timestamp;
    message = "";
  }

  record_sync : Synced p c → String → Bundle → Outcome State
  record_sync synced ns bundle = elim synced.failure [
    | some message ↦ record { failure = some message; bundle = bundle; state = synced.cluster }
    | none ↦ record {
      failure = none;
      bundle = record bundle { status = installed_status bundle synced ns };
      state = synced.cluster;
    }
  ]

  -- Nothing to create or remove, and the bundle is installed with these values.
  unfoldable pub is_up_to_date : Bundle → DiffResult → Bool
  is_up_to_date bundle d =
      bundle.status.phase == phase_installed
      && equal_map_values bundle.status.values.object bundle.spec.values.object
      && is_empty d.creats
      && is_empty d.removes

  unfoldable pub apply_resources : List Unstructured → String → Bundle → State → Outcome State
  unfolding record_sync
  apply_resources resources ns bundle s =
      let d = diff p bundle.status.resources resources in
      if is_up_to_date bundle d
      then record { failure = none; bundle = bundle; state = s }
      else record_sync (sync_diff p c d new_default_sync_options s) ns bundle

  pub apply_split : Split → Bundle → State → Outcome State
  apply_split split bundle s = elim split.failure [
    | some message ↦ record { failure = some message; bundle = bundle; state = s }
    | none ↦
        apply_resources (set_namespace_if_not_set t (target_namespace bundle) split.objs)
          (target_namespace bundle) bundle s
  ]

  pub apply_rendered : Result String × Bundle → State → Outcome State
  apply_rendered (err message, bundle) s = record {
    failure = some message;
    bundle = bundle;
    state = s;
  }
  apply_rendered (ok text, bundle) s = apply_split (split_yaml t.decode text) bundle s

  -- `Apply`
  unfoldable pub apply : TemplateFun State → Bundle → String → State → Outcome State
  unfolding apply_rendered apply_split
  apply template_fun bundle into s = apply_rendered (template_fun bundle into s) s

  note_removal : Synced p c → Bundle → Outcome State
  note_removal synced bundle = elim synced.failure [
    | some message ↦ record { failure = some message; bundle = bundle; state = synced.cluster }
    | none ↦ record {
      failure = none;
      bundle = record bundle {
        status = record bundle.status {
          resources = synced.managed;
          phase = phase_disabled;
          message = "";
        };
      };
      state = synced.cluster;
    }
  ]

  -- `Remove`
  unfoldable pub remove : Bundle → State → Outcome State
  unfolding note_removal
  remove bundle s =
      note_removal (sync p c bundle.status.resources [] new_default_sync_options s) bundle
