-- ===== src/Tests/OnDownload.antt =====
-- An archive that breaks off, downloaded twice.
use bundle_controller.Base.{
  String, ◌<>◌, Bool, true, false, none, some, List, [], ◌∷◌, ◌≡◌, refl, ◌==◌, string_eq,
  if◌then◌else◌, ok, err, has_prefix, has_suffix, trim_prefix,
}
use bundle_controller.Types.{Bundle}
use bundle_controller.Helm.Sdk.{Sdk, not_found}
use bundle_controller.Download.Host.{FileSystem, TarEntry, GitFile, Step, item, broken}
use bundle_controller.Download.Unpack.{untar_all, download_tgz}
use bundle_controller.Download.{download, find_at, has_tgz, is_not_empty}
use bundle_controller.Download.Again.{download_again}
use bundle_controller.Download.Search.{download-first}
use bundle_controller.Tests.Samples.{new_bundle, kustomize_spec}

abbrev is_in : String → List String → Bool
is_in path [] = false
is_in path (p ∷ ps) = if p == path then true else is_in path ps

abbrev entries : List (Step TarEntry)
entries =
    item (record { name = "docs/"; is_dir = true; mode = 0; content = "" })
    ∷ item (record { name = "deploy/"; is_dir = true; mode = 0; content = "" })
    ∷ broken "unexpected EOF"
    ∷ []

abbrev git_files : List GitFile
git_files =
    record { name = "docs/a.md"; mode = some 0; content = ok "a" }
    ∷ record { name = "deploy/b.yaml"; mode = none; content = ok "b" }
    ∷ []

-- The state is the paths that were made.
abbrev disk : FileSystem (List String)
disk = record {
  join = λ dir path. if path == "" then dir else dir <> "/" <> path;
  dir = λ path. path;
  base = λ path. path;
  user_home_dir = λ s. "/root";
  stat = λ path s. is_in path s;
  read_dir = λ path s. if is_in path s then some [] else none;
  mkdir_all = λ path mode s. (none, path ∷ s);
  rename = λ path other s. (none, other ∷ s);
  create = λ path mode s. (none, path ∷ s);
  copy = λ path content s. s;
  write_file = λ path content mode s. (none, path ∷ s);
  http_get = λ uri s. (ok "body", s);
  untar = λ body. entries;
  unzip = λ raw. err "zip: not a valid zip file";
  parse_request_uri = λ uri. err "invalid URI for request";
  walk_dir = λ path s. [];
  clone = λ uri rev s. (err "repository not found", s);
}

abbrev no_helm : Sdk (List String)
no_helm = record {
  locate_chart = λ name repo version s. (err "no chart", s);
  load = λ path s. err "no chart";
  check_dependencies = λ c s. none;
  update = λ path s. (none, s);
  render = λ name namespace c values s. err "no release";
  get = λ namespace name s. not_found;
  install = λ namespace name c values s. (err "no release", s);
  upgrade = λ namespace name c values s. (err "no release", s);
  uninstall = λ namespace name s. (err "no release", s);
  history = λ namespace name s. err "no release";
  delete = λ namespace name version s. (none, s);
  sort_func = λ less l. l;
}

abbrev remote : Bundle
remote = record new_bundle {
  spec = record kustomize_spec { url = "https://example.com/web.tgz"; path = "deploy/" };
}

-- The first download fails, after it made the directory.
first_broken :
    download disk no_helm remote "/cache" [] []
    ≡ (err "unexpected EOF", remote, "/cache/web-v1" ∷ [])
unfolding download find_at has_tgz is_not_empty download_tgz untar_all has_prefix has_suffix
    trim_prefix
first_broken = refl

download_again_example :
    download disk no_helm
      (download disk no_helm remote "/cache" [] []).1
      "/cache"
      []
      (download disk no_helm remote "/cache" [] []).2
    ≡ (
      ok "/cache/web-v1",
      (download disk no_helm remote "/cache" [] []).1,
      (download disk no_helm remote "/cache" [] []).2,
    )
unfolding download find_at has_tgz is_not_empty download_tgz untar_all has_prefix has_suffix
    trim_prefix
download_again_example = download_again disk no_helm remote "/cache" [] [] refl refl refl refl refl

download-first_example :
    download disk no_helm remote "/cache" ("/none" ∷ "/opt" ∷ "/late" ∷ []) ("/opt/web-v1" ∷ [])
    ≡ (ok "/opt/web-v1", remote, "/opt/web-v1" ∷ [])
unfolding find_at has_tgz is_not_empty
download-first_example =
    download-first disk no_helm remote ("/opt/web-v1" ∷ []) "/cache" ("/none" ∷ []) ("/late" ∷ [])
      "/opt" refl (refl, tt) refl
