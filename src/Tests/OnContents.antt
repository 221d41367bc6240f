-- ===== src/Tests/OnContents.antt =====
-- A kustomize bundle that is installed beside another object, and removed.
use bundle_controller.Base.{false, true, none, [], ◌∷◌, ◌≡◌, refl, lookup, insert, string_eq}
use bundle_controller.Types.{reference_eq}
use bundle_controller.Values.Equal.{equal_map_values}
use bundle_controller.Resource.{get_reference, is_skiped_on}
use bundle_controller.Manifest.{split_yaml, split_documents}
use bundle_controller.Diff.{
  diff, from_reference, managed_map, sort_resource, sort_resources, unused,
}
use bundle_controller.Sync.{
  sync, sync_diff, run_diff, create_all, apply_all, remove_all, create_one, apply_one, remove_one,
  apply_resource, prepare_namespace, create_ns_if_not_exists, failure_text,
}
use bundle_controller.Outcome.{Outcome}
use bundle_controller.Native.{
  kustomize_build_func, apply, apply_resources, installed_status, is_up_to_date, place, remove,
  set_namespace_if_not_set, is_namespaced_scope,
}
use bundle_controller.Native.Contents.{remove-apply}
use bundle_controller.Tests.Samples.{config_map_named, reference_to, registered_bundle}
use bundle_controller.Tests.Servers.{platform, platform-IsFaithful, tools, one_object}
use bundle_controller.Tests.World.{
  World, world, world-KeepsReferences, world-IsStore, lives, fades, build,
}

abbrev beside : World
beside = record {
  objects = config_map_named "other" ∷ [];
  paths = "/cache/web-v1" ∷ [];
  stored = registered_bundle;
}

abbrev installed : Outcome World
installed =
    apply platform world tools (kustomize_build_func build) registered_bundle "/cache/web-v1" beside

abbrev uninstalled : Outcome World
uninstalled = remove platform world tools installed.bundle installed.state

run_fine :
    (installed.failure ≡ none)
    × (lives installed.state (reference_to "web") ≡ true)
    × (uninstalled.failure ≡ none)
unfolding remove apply apply_resources installed_status set_namespace_if_not_set place
    is_namespaced_scope split_yaml split_documents is_up_to_date equal_map_values sync sync_diff
    run_diff create_all apply_all remove_all create_one apply_one remove_one apply_resource
    prepare_namespace create_ns_if_not_exists failure_text diff from_reference managed_map
    sort_resource sort_resources unused get_reference is_skiped_on lookup insert reference_eq
run_fine = (refl, refl, refl)

remove-apply_example : lives uninstalled.state (reference_to "web") ≡ false
unfolding split_yaml split_documents set_namespace_if_not_set place is_namespaced_scope is_skiped_on
    reference_eq get_reference
remove-apply_example =
    remove-apply platform world tools one_object lives fades world-IsStore (reference_to "web") refl
      platform-IsFaithful (kustomize_build_func build) registered_bundle registered_bundle
      "/cache/web-v1" "web" (config_map_named "web" ∷ []) beside world-KeepsReferences refl refl
      refl (λ e. cc) tt (((λ e. cc), refl), tt) (refl, tt) (refl, tt) run_fine.0 run_fine.2
