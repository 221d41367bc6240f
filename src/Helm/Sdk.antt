-- ===== src/Helm/Sdk.antt =====
-- The helm library, as the program calls it: over a state that holds the cluster, the stored
-- releases and the local files.
use bundle_controller.Base.{ℕ, String, Bool, Option, List, Result, ◌==◌, string_eq}
use bundle_controller.Values.Data.{Fields}

-- A loaded chart: the loader refuses one without metadata.
pub record Chart : Type 0 where
  pub name : String
  pub version : String
  pub app_version : String

-- Times are in nanoseconds.
pub record Release : Type 0 where
  pub name : String
  pub namespace : String
  pub version : ℕ
  pub status : String
  pub description : String
  pub notes : String
  pub first_deployed : ℕ
  pub last_deployed : ℕ
  pub config : Option Fields
  pub manifest : String
  pub chart : Chart

-- `release.StatusDeployed`
abbrev pub is_deployed : Release → Bool
is_deployed rls = rls.status == "deployed"

-- What `action.NewGet(cfg).Run` answers; `not_found` is `driver.ErrReleaseNotFound`.
pub data Found : Type 0 where
  found : Release → Found
  not_found : Found
  broken : String → Found

-- Each operation that `NewHelmConfig` parameterises takes the namespace of the configuration.
pub record Sdk (State : Type 0) : Type 0 where
  -- `LocateChart` of a name or path, with a repository and a version.
  pub locate_chart : String → String → String → State → Result String × State
  pub load : String → State → Result Chart
  -- `CheckDependencies`: the error if there is one.
  pub check_dependencies : Chart → State → Option String
  -- `downloader.Manager.Update` of a chart's path.
  pub update : String → State → Option String × State
  -- The client-only dry run, by release name and namespace.
  pub render : String → String → Chart → Option Fields → State → Result Release
  pub get : String → String → State → Found
  pub install : String → String → Chart → Option Fields → State → Result Release × State
  pub upgrade : String → String → Chart → Option Fields → State → Result Release × State
  pub uninstall : String → String → State → Result Release × State
  -- The storage: the revisions of a release, and the removal of one.
  pub history : String → String → State → Result (List Release)
  pub delete : String → String → ℕ → State → Option String × State
  -- `slices.SortFunc`
  pub sort_func : (Release → Release → Bool) → List Release → List Release
