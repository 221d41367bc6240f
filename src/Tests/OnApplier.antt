-- ===== src/Tests/OnApplier.antt =====
-- The default appliers on the world: a kustomize bundle applied twice, and a deleted one released.
use mathlib.Core.Path.{subst}
use mathlib.Core.Option.{some-injective}
use bundle_controller.Base.{
  false, inl, none, List, [], ◌∷◌, ◌≡◌, refl, All, ok, err, lookup, insert, string_eq, has_prefix,
  has_suffix, trim_prefix,
}
use bundle_controller.Types.{ObjectReference, reference_eq, Bundle, phase_disabled}
use bundle_controller.Values.Data.{IsMap, get}
use bundle_controller.Values.Codec.{unmarshal_json, marshal_json}
use bundle_controller.Values.Nulls.{remove_null_fields}
use bundle_controller.Values.Equal.{equal_map_values}
use bundle_controller.Resource.{Unstructured, get_reference, is_skiped_on}
use bundle_controller.Manifest.{split_yaml, split_documents}
use bundle_controller.Diff.{
  diff, from_reference, managed_map, sort_resource, sort_resources, unused,
}
use bundle_controller.Sync.{
  sync, sync_diff, run_diff, create_all, apply_all, remove_all, create_one, apply_one, remove_one,
  apply_resource, prepare_namespace, create_ns_if_not_exists, failure_text,
  new_default_sync_options,
}
use bundle_controller.Sync.Desired.{desired, sync-desired, sync-new_version}
use bundle_controller.Cluster.{IsStorable, reply}
use bundle_controller.Outcome.{Outcome}
use bundle_controller.Native
use bundle_controller.Native.{
  TemplateFun, kustomize_build_func, apply_resources, is_up_to_date, place,
  set_namespace_if_not_set, is_namespaced_scope, target_namespace,
}
use bundle_controller.Download.{download, find_at, has_tgz, is_not_empty}
use bundle_controller.Download.Unpack.{download_tgz, untar_all}
use bundle_controller.Applier.{apply, remove, new_default_appliers, BundleApplier}
use bundle_controller.Applier.Default.{new_default_apply, native_methods, helm_methods}
use bundle_controller.Applier.Twice.{applier, applier_settled}
use bundle_controller.Reconciler.Loop.{reconcile, updated, release, done, has_finalizer}
use bundle_controller.Reconciler.Loop.Deletion.{appliers, stored_after, reconcile-deletion}
use bundle_controller.Reconciler.Loop.Cleanup.{reconcile-cleanup}
use bundle_controller.Tests.Samples.{
  config_map_named, reference_to, image_values-IsMap, registered_bundle, deleted_bundle,
  kustomize_spec,
}
use bundle_controller.Tests.Servers.{
  platform, platform-IsFaithful, one_object, wire, tools, libraries, libraries-IsLawful,
}
use bundle_controller.Tests.World.{
  World, world, world-KeepsReferences, world-IsStore, lives, fades, disk, no_helm, build, world_api,
  world_api-KeepsAllElse, world_api-KeepsContents,
}

abbrev pub remote : Bundle
remote = record registered_bundle {
  spec = record kustomize_spec { url = "https://example.com/web.tgz"; path = "deploy/" };
}

abbrev pub no_template : TemplateFun World
no_template b into w = (err "no template", b)

abbrev pub before : World
before = record { objects = []; paths = []; stored = remote }

abbrev pub downloaded : World
downloaded = record before { paths = "/cache/web-v1" ∷ [] }

abbrev pub default_apply : BundleApplier World
default_apply = applier platform world tools no_helm disk build no_template "/cache"

abbrev first : Outcome World
first = apply default_apply remote before

fetched : download disk no_helm remote "/cache" [] before ≡ (ok "/cache/web-v1", remote, downloaded)
unfolding download find_at has_tgz is_not_empty download_tgz untar_all has_prefix has_suffix
    trim_prefix
fetched = refl

first_fine : first.failure ≡ none
unfolding apply new_default_apply new_default_appliers native_methods download find_at has_tgz
    is_not_empty download_tgz untar_all has_prefix has_suffix trim_prefix Native.apply
    apply_resources set_namespace_if_not_set place is_namespaced_scope split_yaml split_documents
    is_up_to_date equal_map_values sync sync_diff run_diff create_all apply_all remove_all
    create_one apply_one remove_one apply_resource prepare_namespace create_ns_if_not_exists
    failure_text diff from_reference managed_map sort_resource sort_resources unused get_reference
    is_skiped_on lookup insert reference_eq
first_fine = refl

first_paths : first.state.paths ≡ "/cache/web-v1" ∷ []
unfolding apply new_default_apply new_default_appliers native_methods download find_at has_tgz
    is_not_empty download_tgz untar_all has_prefix has_suffix trim_prefix Native.apply
    apply_resources set_namespace_if_not_set place is_namespaced_scope split_yaml split_documents
    is_up_to_date equal_map_values sync sync_diff run_diff create_all apply_all remove_all
    create_one apply_one remove_one apply_resource prepare_namespace create_ns_if_not_exists
    failure_text diff from_reference managed_map sort_resource sort_resources unused get_reference
    is_skiped_on lookup insert reference_eq
first_paths = refl

pub documents-IsStorable :
    All (IsStorable world) (
      set_namespace_if_not_set tools (target_namespace remote) (split_yaml tools.decode "web").objs)
unfolding split_yaml split_documents set_namespace_if_not_set place is_namespaced_scope
documents-IsStorable = (((λ e. cc), refl), tt)

-- Nothing is an archive on this disk.
no_archive : has_tgz disk "/cache/web-v1" first.state ≡ none
unfolding has_tgz
no_archive = refl

applier_settled_example : apply default_apply first.bundle first.state ≡ first
applier_settled_example =
    applier_settled platform world tools no_helm disk build no_template "/cache" remote remote "web"
      [] before downloaded platform-IsFaithful world-KeepsReferences refl refl refl refl fetched
      refl documents-IsStorable (λ m e. subst IsMap (some-injective _ _ e) image_values-IsMap)
      first_fine no_archive (rw first_paths refl) (rw first_paths refl)

abbrev managed : List ObjectReference
managed = reference_to "old" ∷ reference_to "kept" ∷ []

abbrev rendered : List Unstructured
rendered = config_map_named "kept" ∷ config_map_named "new" ∷ []

abbrev holding : World
holding = record before { objects = config_map_named "old" ∷ config_map_named "kept" ∷ [] }

abbrev upgraded : List Unstructured
upgraded = record (config_map_named "old") { api_version = "v2" } ∷ []

sync_fine :
    ((sync platform world managed rendered new_default_sync_options holding).failure ≡ none)
    × ((sync platform world managed upgraded new_default_sync_options holding).failure ≡ none)
unfolding sync sync_diff run_diff create_all apply_all remove_all create_one apply_one remove_one
    apply_resource prepare_namespace create_ns_if_not_exists failure_text diff from_reference
    managed_map sort_resource sort_resources unused get_reference is_skiped_on lookup insert
    reference_eq
sync_fine = (refl, refl)

sync-desired_example :
    lives
      (sync platform world managed rendered new_default_sync_options holding).cluster
      (reference_to "old")
    ≡ desired one_object managed rendered (lives holding) (reference_to "old")
unfolding is_skiped_on reference_eq
sync-desired_example =
    sync-desired platform world new_default_sync_options one_object lives fades world-IsStore
      (reference_to "old") refl managed rendered holding platform-IsFaithful (refl, (refl, tt))
      (((λ e. cc), refl), (((λ e. cc), refl), tt)) (refl, (refl, tt)) (refl, (refl, tt)) sync_fine.0

sync-new_version_example :
    lives
      (sync platform world managed upgraded new_default_sync_options holding).cluster
      (record (reference_to "old") { api_version = "v2" })
    ≡ false
unfolding is_skiped_on get_reference reference_eq
sync-new_version_example =
    sync-new_version platform world new_default_sync_options one_object lives fades world-IsStore
      (record (reference_to "old") { api_version = "v2" }) refl managed upgraded holding
      (reference_to "old") platform-IsFaithful (refl, (refl, tt)) (((λ e. cc), refl), tt) (refl, tt)
      (refl, tt) refl refl refl refl sync_fine.1

-- The deleted bundle, with its object in the cluster.
abbrev leaving : World
leaving = record { objects = config_map_named "web" ∷ []; paths = []; stored = deleted_bundle }

abbrev default_deletion : BundleApplier World
default_deletion =
    appliers platform world tools no_helm disk build no_template "/cache" [] libraries world_api

abbrev removed : Outcome World
removed = remove default_deletion deleted_bundle leaving

abbrev gone : Bundle
gone = record deleted_bundle {
  status = record deleted_bundle.status { resources = []; phase = phase_disabled; message = "" };
}

abbrev released : World
released = record { objects = []; paths = []; stored = gone }

removed_outcome :
    removed ≡ record { failure = none; bundle = gone; state = record leaving { objects = [] } }
unfolding remove new_default_apply new_default_appliers native_methods helm_methods Native.remove
    sync sync_diff run_diff create_all apply_all remove_all remove_one failure_text diff
    from_reference managed_map sort_resources unused get_reference is_skiped_on lookup insert
    reference_eq
removed_outcome = refl

abbrev left_stored : Bundle
left_stored =
    stored_after platform world tools no_helm disk build no_template "/cache" [] libraries world_api
      wire deleted_bundle leaving

reconcile-deletion_example :
    (reconcile libraries world_api default_deletion "shop" "web" leaving ≡ (done, released))
    × (world_api.get_bundle "shop" "web" released ≡ reply left_stored)
    × (left_stored.status.phase ≡ phase_disabled)
    × (has_finalizer libraries (release libraries left_stored) ≡ false)
    × (reconcile libraries world_api default_deletion "shop" "web" released
        ≡ updated false (world_api.update (release libraries left_stored) released))
unfolding unmarshal_json marshal_json remove_null_fields get
reconcile-deletion_example =
    reconcile-deletion platform world tools no_helm disk build no_template "/cache" [] libraries
      world_api wire deleted_bundle gone leaving released world_api-KeepsAllElse libraries-IsLawful
      refl refl refl refl (rw removed_outcome refl) (rw removed_outcome refl)
      (rw removed_outcome refl)

reconcile-cleanup_example :
    (reconcile libraries world_api default_deletion "shop" "web" leaving ≡ (done, released))
    × (lives released (reference_to "web") ≡ false)
    × (world_api.get_bundle "shop" "web" released ≡ reply gone)
    × (reconcile libraries world_api default_deletion "shop" "web" released
        ≡ updated false (world_api.update (release libraries gone) released))
unfolding reference_eq get_reference unmarshal_json marshal_json remove_null_fields get
reconcile-cleanup_example =
    reconcile-cleanup platform world tools no_helm disk build no_template "/cache" [] libraries
      world_api one_object lives fades wire (reference_to "web") deleted_bundle gone leaving
      released world-IsStore platform-IsFaithful world-KeepsReferences world_api-KeepsAllElse
      world_api-KeepsContents libraries-IsLawful refl (inl refl) (refl, tt) refl refl refl refl
      (rw removed_outcome refl) (rw removed_outcome refl) (rw removed_outcome refl)
