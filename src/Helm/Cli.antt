-- ===== src/Helm/Cli.antt =====
-- pkg/bundle/helm/helm-cli.go: `LoadChart`, `ApplyChart` and `RemoveChart`.
pub mod Apart
use bundle_controller.Base.{
  ℕ, String, Bool, ◌&&◌, Option, none, some, ◌==◌, string_eq, if◌then◌else◌, Result, ok, err,
}
use bundle_controller.Values.Data.{Fields}
use bundle_controller.Values.Equal.{equal_map_values}
use bundle_controller.Helm.Sdk.{Chart, Release, is_deployed, Found, found, not_found, broken, Sdk}
use bundle_controller.Helm.History.{remove_histories}

pub record ApplyOptions : Type 0 where
  pub dry_run : Bool
  pub repo : String
  pub version : String

-- const historiesLimit
abbrev pub histories_limit : ℕ
histories_limit = 2

module _ {State : Type 0} (h : Sdk State) where
  -- The chart after `CheckDependencies`, whose error is answered by an update and a second load.
  load_updated : String → Option String × State → Result (String × Chart) × State
  load_updated path (some message, s) = (err message, s)
  load_updated path (none, s) = elim (h.load path s) [
    | err message ↦ (err message, s)
    | ok chart ↦ (ok (path, chart), s)
  ]

  load_located : Result String × State → Result (String × Chart) × State
  load_located (err message, s) = (err message, s)
  load_located (ok path, s) = elim (h.load path s) [
    | err message ↦ (err message, s)
    | ok chart ↦ elim (h.check_dependencies chart s) [
      | none ↦ (ok (path, chart), s)
      | some _ ↦ load_updated path (h.update path s)
    ]
  ]

  -- `LoadChart`: the path of the chart and the chart.
  unfoldable pub load_chart : String → String → String → State → Result (String × Chart) × State
  unfolding load_located load_updated
  load_chart name_or_path repo version s = load_located (h.locate_chart name_or_path repo version s)

  abbrev is_current : Release → Option Fields → Bool
  is_current exist values = is_deployed exist && equal_map_values exist.config values

  -- What is done with the release that the cluster has, or has not.
  unfoldable pub upgrade_or_install :
      Found → String → String → Chart → Option Fields → State → Result Release × State
  upgrade_or_install (broken message) name namespace chart values s = (err message, s)
  upgrade_or_install not_found name namespace chart values s =
      h.install namespace name chart values s
  upgrade_or_install (found exist) name namespace chart values s =
      if is_current exist values
      then (ok exist, s)
      else h.upgrade namespace name chart values
          (remove_histories h namespace name histories_limit s).1

  pub apply_loaded :
      String
      → String
      → Option Fields
      → ApplyOptions
      → Result (String × Chart) × State
      → Result Release × State
  apply_loaded name namespace values options (err message, s) = (err message, s)
  apply_loaded name namespace values options (ok (path, chart), s) =
      let release_name = if name == "" then chart.name else name in
      if options.dry_run
      then (h.render release_name namespace chart values s, s)
      else upgrade_or_install (h.get namespace release_name s) release_name namespace chart values s

  -- `ApplyChart`
  unfoldable pub apply_chart :
      String → String → String → Option Fields → ApplyOptions → State → Result Release × State
  unfolding apply_loaded
  apply_chart name namespace chart_name_or_path values options s =
      let path = if chart_name_or_path == "" then name else chart_name_or_path in
      apply_loaded name namespace values options (load_chart path options.repo options.version s)

  abbrev uninstalled : Result Release × State → Result (Option Release) × State
  uninstalled (err message, s) = (err message, s)
  uninstalled (ok rls, s) = (ok (some rls), s)

  -- `RemoveChart`: the release that was uninstalled, or none where there was no release.
  unfoldable pub remove_chart : String → String → State → Result (Option Release) × State
  remove_chart name namespace s = elim (h.get namespace name s) [
    | broken message ↦ (err message, s)
    | not_found ↦ (ok none, s)
    | found exist ↦ uninstalled (h.uninstall namespace exist.name s)
  ]
