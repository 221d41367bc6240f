-- ===== src/Tests/OnNative.antt =====
-- A kustomize bundle, applied twice, removed, and refused by its cluster.
use bundle_controller.Base.{
  String, none, List, [], ◌∷◌, ◌≡◌, ◌≢◌, refl, Result, ok, err, lookup, insert, ◌==◌, string_eq,
  if◌then◌else◌,
}
use bundle_controller.Types.{reference_eq}
use bundle_controller.Values.Equal.{equal_map_values}
use bundle_controller.Resource.{Unstructured, get_reference, is_skiped_on}
use bundle_controller.Manifest.{split_yaml, split_documents}
use bundle_controller.Diff.{
  diff, from_reference, managed_map, sort_resource, sort_resources, unused,
}
use bundle_controller.Sync.{
  sync, sync_diff, run_diff, create_all, apply_all, remove_all, create_one, apply_one, remove_one,
  apply_resource, prepare_namespace, create_ns_if_not_exists, failure_text,
}
use bundle_controller.Outcome.{Outcome}
use bundle_controller.Native.{
  kustomize_build_func, apply, apply_resources, remove, is_up_to_date, place,
  set_namespace_if_not_set, is_namespaced_scope,
}
use bundle_controller.Native.Failures.{apply-failed_bundle}
use bundle_controller.Tests.Samples.{config_map_named, registered_bundle, installed_bundle}
use bundle_controller.Tests.Servers.{platform, memory, guarded_memory, tools}

abbrev build : String → List Unstructured → Result String
build into s = if into == "/cache/web-v1" then ok "web" else err "no such directory"

abbrev applied : Outcome (List Unstructured)
applied =
    apply platform memory tools (kustomize_build_func build) registered_bundle "/cache/web-v1" []

applied_fine : applied.failure ≡ none
unfolding apply apply_resources set_namespace_if_not_set place is_namespaced_scope split_yaml
    split_documents is_up_to_date equal_map_values sync sync_diff run_diff create_all apply_all
    remove_all create_one apply_one remove_one apply_resource prepare_namespace
    create_ns_if_not_exists failure_text diff from_reference managed_map sort_resource
    sort_resources unused get_reference is_skiped_on lookup insert reference_eq
applied_fine = refl

-- No such directory.
apply-failed_bundle_example :
    (apply platform memory tools
      (kustomize_build_func build)
      registered_bundle
      "/nowhere"
      []).bundle
    ≡ (kustomize_build_func build registered_bundle "/nowhere" []).1
unfolding apply
apply-failed_bundle_example =
    apply-failed_bundle platform memory tools (kustomize_build_func build) registered_bundle
      "/nowhere" [] (λ e. cc)

removal_refused :
    (remove platform guarded_memory tools installed_bundle (config_map_named "web" ∷ [])).failure
    ≢ none
unfolding remove sync sync_diff run_diff create_all apply_all remove_all remove_one failure_text
    diff from_reference managed_map sort_resources unused is_skiped_on lookup insert reference_eq
removal_refused = λ e. cc

removal_fine :
    (remove platform memory tools installed_bundle (config_map_named "web" ∷ [])).failure ≡ none
unfolding remove sync sync_diff run_diff create_all apply_all remove_all remove_one failure_text
    diff from_reference managed_map sort_resources unused is_skiped_on get_reference lookup insert
    reference_eq
removal_fine = refl
