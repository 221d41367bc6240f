-- ===== src/Tests/OnSettled.antt =====
-- A kustomize bundle reconciled, and reconciled once more.
use mathlib.Core.Path.{subst}
use mathlib.Core.Option.{some-injective}
use bundle_controller.Base.{
  none, some, true, Perm, [], ◌∷◌, ◌≡◌, refl, ok, lookup, insert, string_eq, has_prefix, has_suffix,
  trim_prefix,
}
use bundle_controller.Types.{Bundle, reference_eq, phase_installed}
use bundle_controller.Values.Data.{Fields, IsMap, get, put}
use bundle_controller.Values.Codec.{full_fill, unmarshal_json, marshal_json}
use bundle_controller.Values.Nulls.{remove_null_fields, keep_entry}
use bundle_controller.Reconciler.Wire.{carried}
use bundle_controller.Values.Merge.{merge_maps}
use bundle_controller.Values.Equal.{equal_map_values}
use bundle_controller.Resource.{get_reference, is_skiped_on}
use bundle_controller.Manifest.{split_yaml, split_documents}
use bundle_controller.Diff.{
  diff, from_reference, managed_map, sort_resource, sort_resources, unused,
}
use bundle_controller.Sync.{
  sync_diff, run_diff, create_all, apply_all, remove_all, create_one, apply_one, remove_one,
  apply_resource, prepare_namespace, create_ns_if_not_exists, failure_text,
}
use bundle_controller.Cluster.{reply}
use bundle_controller.Outcome.{Outcome}
use bundle_controller.Native
use bundle_controller.Native.{
  apply_resources, installed_status, is_up_to_date, place, set_namespace_if_not_set,
  is_namespaced_scope,
}
use bundle_controller.Download.{download, find_at, has_tgz, is_not_empty}
use bundle_controller.Download.Unpack.{download_tgz, untar_all}
use bundle_controller.Applier.{apply, new_default_appliers}
use bundle_controller.Applier.Default.{new_default_apply, native_methods}
use bundle_controller.Reconciler.Values.{resolve_values_ref, add_references}
use bundle_controller.Tests.OnApplier.{
  documents-IsStorable, remote, before, downloaded, default_apply, no_template,
}
use bundle_controller.Tests.Samples.{
  image_values, image_values-IsMap, reference_to, config_map_named,
}
use bundle_controller.Tests.Servers.{
  libraries, platform, platform-IsFaithful, tools, wire, one_object,
}
use bundle_controller.Tests.World.{
  World, world, disk, no_helm, build, world_api, world-KeepsReferences, world_api-KeepsAllElse,
  world_api-KeepsContents, world-IsStore, lives, fades,
}
use bundle_controller.Reconciler.Dependencies.{check_depenency}
use bundle_controller.Native.Recorded.{unchanged}
use bundle_controller.Reconciler.Loop.{reconcile, sync, done, status_written}
use bundle_controller.Reconciler.Loop.Settled.{reconcile_settled}
use bundle_controller.Reconciler.Loop.Installs.{reconcile-installs}
use bundle_controller.Diff.Partition.{references}

abbrev pub resolved : Bundle
resolved = record remote {
  spec = record remote.spec {
    values = full_fill libraries.json (record { raw = none; object = some image_values });
  };
}

pub resolving : resolve_values_ref libraries world_api remote before ≡ ok resolved
unfolding resolve_values_ref add_references merge_maps put get
resolving = refl

abbrev first : Outcome World
first = apply default_apply resolved before

abbrev pub installed : Bundle
installed = record resolved {
  status = record resolved.status {
    phase = phase_installed;
    values = resolved.spec.values;
    version = "v1";
    namespace = "shop";
    creation_timestamp = 5;
    upgrade_timestamp = 5;
    resources = reference_to "web" ∷ [];
  };
}

abbrev later : World
later = record downloaded { objects = config_map_named "web" ∷ [] }

ran : first ≡ record { failure = none; bundle = installed; state = later }
unfolding apply new_default_apply new_default_appliers native_methods download find_at has_tgz
    is_not_empty download_tgz untar_all has_prefix has_suffix trim_prefix Native.apply
    apply_resources set_namespace_if_not_set place is_namespaced_scope split_yaml split_documents
    is_up_to_date equal_map_values sync_diff run_diff create_all apply_all remove_all create_one
    apply_one remove_one apply_resource prepare_namespace create_ns_if_not_exists failure_text diff
    from_reference managed_map sort_resource sort_resources unused get_reference is_skiped_on lookup
    insert reference_eq full_fill installed_status
ran = refl

pub fetched :
    download disk no_helm resolved "/cache" [] before ≡ (ok "/cache/web-v1", resolved, downloaded)
unfolding download find_at has_tgz is_not_empty download_tgz untar_all has_prefix has_suffix
    trim_prefix
fetched = refl

-- The stored bundle gets the status alone.
abbrev written : Bundle
written = record remote { status = installed.status }

abbrev at_end : World
at_end = record later { stored = written }

no_archive : has_tgz disk "/cache/web-v1" at_end ≡ none
unfolding has_tgz
no_archive = refl

resolving_again : resolve_values_ref libraries world_api remote at_end ≡ ok resolved
unfolding resolve_values_ref add_references merge_maps put get
resolving_again = refl

ready : (w : World) → check_depenency world_api remote w ≡ none
unfolding check_depenency
ready w = refl

pub resolved-IsMap : (m : Fields) → resolved.spec.values.object ≡ some m → IsMap m
unfolding full_fill
resolved-IsMap m e = subst IsMap (some-injective _ _ e) image_values-IsMap

reconcile_settled_example :
    (reconcile libraries world_api default_apply "shop" "web" before ≡ (done, at_end))
    × (world_api.get_bundle "shop" "web" at_end
        ≡ reply (record remote { status = carried wire first.bundle.status }))
    × (sync libraries world_api default_apply
          (record remote { status = carried wire first.bundle.status })
          at_end
        ≡ unchanged (record first.bundle { status = carried wire first.bundle.status }) at_end)
    × (reconcile libraries world_api default_apply "shop" "web" at_end
        ≡ status_written none (
            world_api.update_status
              (record first.bundle { status = carried wire first.bundle.status })
              at_end))
unfolding full_fill unmarshal_json marshal_json remove_null_fields keep_entry get
reconcile_settled_example =
    reconcile_settled platform world tools no_helm disk build no_template "/cache" libraries
      world_api wire remote resolved resolved written "web" [] before downloaded at_end
      platform-IsFaithful world-KeepsReferences world_api-KeepsAllElse refl refl refl refl
      (ready before) resolving resolved-IsMap refl refl refl refl fetched refl documents-IsStorable
      (rw ran refl) (rw ran refl) (rw ran refl) (rw ran refl) (ready at_end) resolving_again
      no_archive refl refl

reconcile-installs_example :
    (reconcile libraries world_api default_apply "shop" "web" before ≡ (done, at_end))
    × (lives at_end (reference_to "web") ≡ true)
    × (first.bundle.status.phase ≡ phase_installed)
    × Perm first.bundle.status.resources (references (config_map_named "web" ∷ []))
unfolding is_up_to_date split_yaml split_documents set_namespace_if_not_set place
    is_namespaced_scope is_skiped_on reference_eq get_reference full_fill unmarshal_json
    marshal_json remove_null_fields keep_entry get
reconcile-installs_example =
    reconcile-installs platform world tools no_helm disk build no_template "/cache" libraries
      world_api one_object lives fades (reference_to "web") remote resolved resolved written
      "/cache/web-v1" "web" (config_map_named "web" ∷ []) before downloaded at_end world-IsStore
      platform-IsFaithful world-KeepsReferences world_api-KeepsContents refl refl refl refl refl
      (ready before) resolving fetched refl refl refl refl refl refl tt (((λ e. cc), refl), tt)
      (refl, tt) (refl, tt) (rw ran refl) (rw ran refl)
