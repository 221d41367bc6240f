-- ===== src/Tests/OnTemplate.antt =====
-- A directory with a Chart.yaml, and one that cannot be opened.
use bundle_controller.Base.{
  ◌<>◌, true, false, none, some, List, [], ◌∷◌, ◌++◌, ◌≡◌, refl, ◌==◌, string_eq, if◌then◌else◌, ok,
  err, any, lookup, insert, trim_prefix,
}
use bundle_controller.Types.{reference_eq}
use bundle_controller.Values.Data.{end}
use bundle_controller.Values.Equal.{equal_map_values}
use bundle_controller.Resource.{get_reference, is_skiped_on}
use bundle_controller.Manifest.{split_yaml, split_documents}
use bundle_controller.Diff.{
  diff, from_reference, managed_map, sort_resource, sort_resources, unused,
}
use bundle_controller.Sync.{
  sync, sync_diff, run_diff, create_all, apply_all, remove_all, create_one, apply_one, remove_one,
  apply_resource, prepare_namespace, create_ns_if_not_exists, failure_text,
}
use bundle_controller.Native.{
  apply, apply_resources, is_up_to_date, place, set_namespace_if_not_set, is_namespaced_scope,
}
use bundle_controller.Template.{template, load, visit, visit_all, documents}
use bundle_controller.Template.Engine.{Visit, BufferedFile, Helm}
use bundle_controller.Template.Directory.{
  files_below, is_chart_file, chart_file, load-readable, load-unopened,
}
use bundle_controller.Template.Version.{apply-template_version}
use bundle_controller.Tests.Samples.{registered_bundle}
use bundle_controller.Tests.Servers.{platform, tools}
use bundle_controller.Tests.World.{World, world}

abbrev root_visit : Visit
root_visit = record {
  name = "/cache/web/";
  failure = none;
  is_dir = true;
  content = err "is a directory";
}

abbrev chart_visit : Visit
chart_visit = record {
  name = "/cache/web/Chart.yaml";
  failure = none;
  is_dir = false;
  content = ok "name: web";
}

abbrev broken_visit : Visit
broken_visit = record {
  name = "/cache/web.tgz/";
  failure = some "not a directory";
  is_dir = false;
  content = err "not a directory";
}

-- A chart is its files, in the version 2.0.0.
abbrev pub engine : Helm World (List BufferedFile)
engine = record {
  abs = λ path w. ok path;
  walk =
      λ root w. if root == "/cache/web/" then root_visit ∷ chart_visit ∷ [] else broken_visit ∷ [];
  marshal_metadata = λ api_version name version. ok ("name: " <> name);
  load_files = λ files. ok files;
  version_of = λ chart. "2.0.0";
  crd_objects = λ chart. [];
  default_capabilities = record { api_versions = []; kube_version = "v1.20.0" };
  server_version = λ w. ok "v1.23.0";
  version_set =
      λ w. record { api_versions = "v1" ∷ []; failure = none; is_group_discovery_failed = false };
  to_render_values = λ chart values options caps. err "no values";
  render_with_client = λ chart values w. ok [];
  render = λ chart values. ok [];
  sort_manifests = λ files api_versions. ok [];
}

abbrev rendering : Helm World (List BufferedFile)
rendering = record engine {
  to_render_values = λ chart values options caps. ok end;
  sort_manifests = λ files api_versions. ok (record { name = "a.yaml"; content = "web" } ∷ []);
}

abbrev empty_world : World
empty_world = record { objects = []; paths = []; stored = registered_bundle }

load-readable_example :
    load engine "web" "" "/cache/web" empty_world
    ≡ engine.load_files (
        files_below "/cache/web/" (root_visit ∷ chart_visit ∷ [])
        ++ (if any (is_chart_file "/cache/web/") (root_visit ∷ chart_visit ∷ [])
            then []
            else chart_file engine "name: web" ∷ []))
unfolding trim_prefix
load-readable_example =
    load-readable engine "web" "" "/cache/web" "/cache/web" "name: web" empty_world refl refl refl

load-unopened_example :
    load engine "web" "" "/cache/web.tgz" empty_world ≡ ok (chart_file engine "name: web" ∷ [])
unfolding trim_prefix
load-unopened_example =
    load-unopened engine "web" "" "/cache/web.tgz" "/cache/web.tgz" "name: web" "not a directory"
      broken_visit empty_world refl refl refl refl refl

loaded :
    load rendering "web" "v1" "/cache/web" empty_world
    ≡ ok (record { name = "Chart.yaml"; content = "name: web" } ∷ [])
unfolding load visit visit_all trim_prefix
loaded = refl

applied_fine :
    (apply platform world tools
      (template rendering true)
      registered_bundle
      "/cache/web"
      empty_world).failure
    ≡ none
unfolding template load visit visit_all trim_prefix documents apply apply_resources
    set_namespace_if_not_set place is_namespaced_scope split_yaml split_documents is_up_to_date
    equal_map_values sync sync_diff run_diff create_all apply_all remove_all create_one apply_one
    remove_one apply_resource prepare_namespace create_ns_if_not_exists failure_text diff
    from_reference managed_map sort_resource sort_resources unused get_reference is_skiped_on lookup
    insert reference_eq
applied_fine = refl

apply-template_version_example :
    (apply platform world tools
      (template rendering true)
      registered_bundle
      "/cache/web"
      empty_world).bundle.status.version
    ≡ "2.0.0"
apply-template_version_example =
    apply-template_version platform world tools rendering true registered_bundle "/cache/web"
      empty_world (record { name = "Chart.yaml"; content = "name: web" } ∷ []) loaded refl
      applied_fine
