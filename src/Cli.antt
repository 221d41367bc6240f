-- ===== src/Cli.antt =====
-- cmd/bundle/apps: the commands `download` and `template` on the bundles of files and directories.
pub mod Sequence
pub mod Directories
pub mod Main
use bundle_controller.Base.{
  String, ◌<>◌, Bool, true, false, ◌&&◌, Option, none, some, List, [], ◌∷◌, ◌==◌, string_eq,
  if◌then◌else◌, Result, ok, err,
}
use bundle_controller.Types.{
  Bundle, BundleSpec, BundleStatus, BundleKind, bundle_kind_helm, bundle_kind_kustomize,
  bundle_kind_template,
}
use bundle_controller.Manifest.Filtered.{
  Scheme, Objects, split_yaml_filterd, read_objects_from_file,
}
use bundle_controller.Applier
use bundle_controller.Applier.{BundleApplier}

-- What the commands call of the operating system.
pub record Console (State : Type 0) : Type 0 where
  -- `os.Lstat` and whether it is a directory; `os.ReadFile`.
  pub lstat : String → State → Result Bool
  pub read_file : String → State → Result String
  pub stdin : State → String
  pub print : String → State → State
  -- Whether `os.Stat` succeeds.
  pub stat : String → State → Bool
  -- `filepath.Join`, `filepath.Base`, and `filepath.Abs`, which gives "" beside an error.
  pub join : String → String → String
  pub base : String → String
  pub abs : String → State → String

abbrev pub is_stdin : List String → Bool
is_stdin [] = false
is_stdin (path ∷ []) = path == "-"
is_stdin (path ∷ next ∷ pathes) = false

module _ {State T : Type 0} (fun : T → State → Option String × State) where
  -- `fun` on each object, up to the first error.
  unfoldable pub for_objects : List T → State → Option String × State
  for_objects [] s = (none, s)
  for_objects (obj ∷ objs) s =
      let (failure, t) = fun obj s in
      elim failure [ some message ↦ (some message, t) | none ↦ for_objects objs t ]

  -- The objects of one source, unless they could not be read.
  unfoldable pub for_read : Objects T → State → Option String × State
  for_read o s = elim o.failure [ some message ↦ (some message, s) | none ↦ for_objects o.objs s ]

  module _ {Object : Type 0} (scheme : Scheme Object T) (console : Console State)
      (read_dir : String → State → T) where
    for_path : String → State → Option String × State
    for_path path s = elim (console.lstat path s) [
      | err message ↦ (some message, s)
      | ok is_dir ↦
          if is_dir
          then for_objects (read_dir path s ∷ []) s
          else for_read (read_objects_from_file scheme (console.read_file path s)) s
    ]

    -- The loop over the paths.
    unfoldable pub for_pathes : List String → State → Option String × State
    unfolding for_path
    for_pathes [] s = (none, s)
    for_pathes (path ∷ pathes) s =
        let (failure, t) = for_path path s in
        elim failure [ some message ↦ (some message, t) | none ↦ for_pathes pathes t ]

    -- `ForBundleInPathes`
    unfoldable pub for_bundle_in_pathes : List String → State → Option String × State
    for_bundle_in_pathes pathes s =
        if is_stdin pathes
        then for_read (split_yaml_filterd scheme (console.stdin s)) s
        else for_pathes pathes s

abbrev pub empty_spec : BundleSpec
empty_spec = record {
  disabled = false;
  kind = "";
  url = "";
  version = "";
  chart = "";
  path = "";
  install_namespace = "";
  dependencies = [];
  values = record { raw = none; object = none };
  values_from = [];
}

abbrev pub no_status : BundleStatus
no_status = record {
  phase = "";
  message = "";
  values = record { raw = none; object = none };
  version = "";
  app_version = "";
  namespace = "";
  creation_timestamp = 0;
  upgrade_timestamp = 0;
  resources = [];
}

module _ {State : Type 0} (console : Console State) where
  detect_kind : String → State → BundleKind
  detect_kind dir s =
      if console.stat (console.join dir "Chart.yaml") s
      then bundle_kind_helm
      else if console.stat (console.join dir "kustomization.yaml") s
      then bundle_kind_kustomize
      else bundle_kind_template

  -- `BundleFromDir`
  unfoldable pub bundle_from_dir : String → State → Bundle
  unfolding detect_kind
  bundle_from_dir dir s = record {
    api_version = "";
    kind = "";
    name = console.base (console.abs dir s);
    namespace = "default";
    finalizers = [];
    deletion_timestamp = none;
    spec = record empty_spec { kind = detect_kind dir s; url = "file://" <> console.abs dir s };
    status = no_status;
  }

  module _ {Object : Type 0} (scheme : Scheme Object Bundle) (apply : BundleApplier State) where
    abbrev downloaded : Result String × Bundle × State → Option String × State
    downloaded (err message, bundle, s) = (some message, s)
    downloaded (ok into, bundle, s) = (none, s)

    abbrev pub download_one : Bundle → State → Option String × State
    download_one bundle s = downloaded (apply.download bundle s)

    -- `NewDownloadCmd`
    unfoldable pub download_cmd : List String → State → Option String × State
    download_cmd args s = for_bundle_in_pathes download_one scheme console bundle_from_dir args s

    abbrev printed : Result String × Bundle × State → Option String × State
    printed (err message, bundle, s) = (some message, s)
    printed (ok content, bundle, s) = (none, console.print content s)

    abbrev pub template_one : Bundle → State → Option String × State
    template_one bundle s = printed (Applier.template apply bundle s)

    -- `NewTemplateCmd`
    unfoldable pub template_cmd : List String → State → Option String × State
    template_cmd args s = for_bundle_in_pathes template_one scheme console bundle_from_dir args s
