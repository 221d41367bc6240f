-- ===== src/Tests/OnHelm.antt =====
-- The helm applier on a cluster with one release, and the limit of the history.
use bundle_controller.Base.{
  ℕ, String, Option, none, some, List, [], ◌∷◌, ◌≡◌, ◌≢◌, refl, ok, err, length, arith, string_eq,
  ◌-◌, ◌+◌,
}
use bundle_controller.Manifest.{Document, content}
use bundle_controller.Values.Equal.{equal_map_values, deep_equal}
use bundle_controller.Helm.Sdk.{Chart, Release, found, not_found, Sdk}
use bundle_controller.Helm.History.{revisions_to_delete, collect, effective_limit}
use bundle_controller.Helm.History.Limit.{
  take, without_last_deployed, revisions_to_delete-newest, revisions_to_delete-few,
}
use bundle_controller.Helm.Cli.{load_chart, apply_chart, upgrade_or_install, remove_chart}
use bundle_controller.Helm.Apply.{apply, apply_bundle, remove}
use bundle_controller.Tests.Samples.{config_map_named, installed_bundle}

abbrev chart : Chart
chart = record { name = "web"; version = "1.0.0"; app_version = "2" }

abbrev revision : ℕ → String → Release
revision n status = record {
  name = "web";
  namespace = "shop";
  version = n;
  status = status;
  description = "the revision";
  notes = "";
  first_deployed = 1;
  last_deployed = 2;
  config = none;
  manifest = "web";
  chart = chart;
}

-- The state is the release if there is one; an upgrade does not finish.
abbrev sdk : Sdk (Option Release)
sdk = record {
  locate_chart = λ name repo version s. (ok name, s);
  load = λ path s. ok chart;
  check_dependencies = λ c s. none;
  update = λ path s. (none, s);
  render = λ name namespace c values s. ok (revision 0 "pending-install");
  get = λ namespace name s. elim s [ none ↦ not_found | some r ↦ found r ];
  install = λ namespace name c values s. (ok (revision 1 "deployed"), some (revision 1 "deployed"));
  upgrade = λ namespace name c values s. (err "timed out", s);
  uninstall = λ namespace name s. elim s [
    | none ↦ (err "release: not found", none)
    | some r ↦ (ok r, none)
  ];
  history = λ namespace name s. elim s [ none ↦ ok [] | some r ↦ ok (r ∷ []) ];
  delete = λ namespace name version s. (none, s);
  sort_func = λ less l. l;
}

abbrev decode : String → List Document
decode text = content (config_map_named text) ∷ []

removed_fine : (remove sdk decode installed_bundle (some (revision 1 "deployed"))).failure ≡ none
unfolding remove remove_chart
removed_fine = refl

upgrade_failed :
    (apply sdk decode installed_bundle "/cache/web" (some (revision 1 "failed"))).failure ≢ none
unfolding apply apply_bundle apply_chart load_chart upgrade_or_install equal_map_values deep_equal
upgrade_failed = λ e. cc

-- Newest first, with the newest deployed.
abbrev revisions : List Release
revisions =
    revision 4 "deployed"
    ∷ revision 3 "superseded"
    ∷ revision 2 "superseded"
    ∷ revision 1 "superseded"
    ∷ []

-- The newest revision below the deployed one goes, and the oldest two stay.
delete_middle : revisions_to_delete 3 revisions ≡ revision 3 "superseded" ∷ []
unfolding revisions_to_delete collect
delete_middle = refl

revisions_to_delete-newest_example :
    (revisions_to_delete 2 revisions
      ≡ take (length revisions - effective_limit 2) (without_last_deployed revisions))
    × (length (revisions_to_delete 2 revisions) + effective_limit 2 ≡ length revisions)
revisions_to_delete-newest_example = revisions_to_delete-newest 2 revisions (omega arith)

revisions_to_delete-few_example : revisions_to_delete 5 revisions ≡ without_last_deployed revisions
revisions_to_delete-few_example = revisions_to_delete-few 5 revisions (omega arith)
