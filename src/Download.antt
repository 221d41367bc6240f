-- ===== src/Download.antt =====
-- pkg/bundle/download.go: where the files of a bundle are found, and how they get into the cache.
pub mod Host
pub mod Unpack
pub mod Again
pub mod Search
pub mod Apart
use bundle_controller.Base.{
  String, ◌<>◌, Bool, true, false, not, ◌&&◌, ◌||◌, Option, none, some, List, [], ◌∷◌, ◌==◌,
  string_eq, if◌then◌else◌, Result, ok, err, has_prefix, has_suffix,
}
use bundle_controller.Types.{Bundle, bundle_kind_helm, bundle_kind_template}
use bundle_controller.Helm.Sdk.{Chart, Sdk}
use bundle_controller.Helm.Cli.{load_chart}
use bundle_controller.Download.Host.{FileSystem}
use bundle_controller.Download.Unpack.{
  default_dir_mode, download_tgz, download_zip, download_file, download_git,
}

-- The name of `getCacheNameVersion`; its version is the one of the bundle.
abbrev pub cache_name : Bundle → String
cache_name bundle = if bundle.spec.chart == "" then bundle.name else bundle.spec.chart

abbrev pub search_name : Bundle → String
search_name bundle =
    if bundle.spec.version == ""
    then cache_name bundle
    else cache_name bundle <> "-" <> bundle.spec.version

-- The versions of a chart go into the status.
abbrev pub note_chart : Chart → Bundle → Bundle
note_chart chart bundle = record bundle {
  status = record bundle.status { app_version = chart.app_version; version = chart.version };
}

module _ {State : Type 0} (f : FileSystem State) where
  -- An archive beside the path.
  unfoldable pub has_tgz : String → State → Option String
  has_tgz path s =
      if f.stat (path <> ".tgz") s
      then some (path <> ".tgz")
      else if f.stat (path <> ".tar.gz") s
      then some (path <> ".tar.gz")
      else none

  -- The directory can be read; `len(entries) >= 0` holds of any entries.
  unfoldable pub is_not_empty : String → State → Bool
  is_not_empty path s = elim (f.read_dir path s) [ none ↦ false | some entries ↦ true ]

  -- "" if there is nothing.
  unfoldable pub find_at : String → State → String
  find_at path s = elim (has_tgz path s) [
    | some file ↦ file
    | none ↦ if is_not_empty path s then path else ""
  ]

  -- What `Download` returns, the bundle, and the files.
  abbrev pub Downloaded : Type 0
  Downloaded = Result String × Bundle × State

  abbrev pub cache_dir_or_default : String → State → String
  cache_dir_or_default cache_dir s =
      if cache_dir == ""
      then f.join (f.join (f.join (f.user_home_dir s) ".cache") "kubegems") "bundles"
      else cache_dir

  abbrev fetched : String → Bundle → Option String × State → Downloaded
  fetched into bundle (some message, s) = (err message, bundle, s)
  fetched into bundle (none, s) = (ok into, bundle, s)

  module _ (h : Sdk State) where
    found_chart : String → Bundle → Result (String × Chart) × State → Downloaded
    found_chart path bundle (err message, s) = (err message, bundle, s)
    found_chart path bundle (ok (_, chart), s) = (ok path, note_chart chart bundle, s)

    -- What a search directory has; a chart is loaded for its versions.
    take_found : String → Bundle → State → Downloaded
    take_found path bundle s =
        if bundle.spec.kind == bundle_kind_helm || bundle.spec.kind == bundle_kind_template
        then found_chart path bundle (load_chart h path "" "" s)
        else (ok path, bundle, s)

    move_chart : String → Bundle → Result (String × Chart) × State → Downloaded
    move_chart into bundle (err message, s) = (err message, bundle, s)
    move_chart into bundle (ok (path, chart), s) =
        let file = f.join (f.dir into) (f.base into <> ".tgz") in
        let made = (f.mkdir_all (f.dir file) default_dir_mode s).1 in
        let (failure, t) = f.rename path file made in
        elim failure [
          | some message ↦ (err message, bundle, t)
          | none ↦ (ok file, note_chart chart bundle, t)
        ]

    -- By the form of the URL.
    download_url : String → Bundle → State → Downloaded
    download_url into bundle s =
        let repo = bundle.spec.url in
        if has_prefix repo "file://"
        then fetched into bundle (download_file f repo bundle.spec.path into s)
        else if has_suffix repo ".git"
        then fetched into bundle (download_git f repo bundle.spec.version bundle.spec.path into s)
        else if has_suffix repo ".zip"
        then fetched into bundle (download_zip f repo bundle.spec.path into s)
        else if has_suffix repo ".tar.gz" || has_suffix repo ".tgz"
        then fetched into bundle (download_tgz f repo bundle.spec.path into s)
        else if bundle.spec.kind == bundle_kind_helm
        then move_chart into bundle (load_chart h (cache_name bundle) repo bundle.spec.version s)
        else (err "unknown download source", bundle, s)

    -- Nothing is in the search directories.
    from_cache : String → Bundle → State → Downloaded
    from_cache cache_dir bundle s =
        if bundle.spec.version == ""
        then (err "not found in search pathes and no version specified", bundle, s)
        else let into = f.join cache_dir (search_name bundle) in
          if not (find_at into s == "")
          then (ok (find_at into s), bundle, s)
          else if bundle.spec.url == ""
          then (if is_not_empty bundle.spec.path s then (ok bundle.spec.path, bundle, s) else (
            err ("[" <> cache_name bundle <> "] not find in search pathes and no url specified"),
            bundle,
            s,
          ))
          else download_url into bundle s

    search : String → List String → Bundle → State → Downloaded
    search cache_dir [] bundle s = from_cache cache_dir bundle s
    search cache_dir (dir ∷ dirs) bundle s =
        let found = find_at (f.join dir (search_name bundle)) s in
        elim (found == "") [
          | true ↦ search cache_dir dirs bundle s
          | false ↦ take_found found bundle s
        ]

    -- `Download`
    unfoldable pub download : Bundle → String → List String → State → Downloaded
    unfolding search from_cache download_url move_chart take_found found_chart
    download bundle cache_dir search_dirs s =
        search (cache_dir_or_default cache_dir s) search_dirs bundle s
