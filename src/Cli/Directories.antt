-- ===== src/Cli/Directories.antt =====
-- The commands on a directory.
use bundle_controller.Base.{
  String, ◌<>◌, true, false, some, List, [], ◌∷◌, ◌≡◌, refl, ◌==◌, string_eq, ok, err, Dict,
}
use bundle_controller.Types.{Bundle}
use bundle_controller.Helm.Sdk.{Sdk}
use bundle_controller.Download.{download}
use bundle_controller.Download.Host.{FileSystem}
use bundle_controller.Manifest.Filtered.{Scheme}
use bundle_controller.Applier.{Methods, BundleApplier, template}
use bundle_controller.Cli.Sequence.{for_pathes-directory}
use bundle_controller.Cli.{
  Console, is_stdin, for_bundle_in_pathes, for_pathes, for_objects, bundle_from_dir, download_cmd,
  template_cmd, download_one, template_one,
}

abbrev pub refusal : String
refusal = "not found in search pathes and no version specified"

module _ {State Object : Type 0} (console : Console State) (scheme : Scheme Object Bundle)
    (f : FileSystem State) (h : Sdk State) (appliers : Dict String (Methods State))
    (cache_dir : String) where
  -- The appliers with no search directory.
  abbrev pub unsearched : BundleApplier State
  unsearched = record {
    appliers = appliers;
    download = λ bundle s. download f h bundle cache_dir [] s;
  }

  download_unversioned :
      (bundle : Bundle) (s : State)
      → (bundle.spec.version == "") ≡ true
      → download f h bundle cache_dir [] s ≡ (err refusal, bundle, s)
  unfolding download
  download_unversioned bundle s unversioned = rw unversioned refl

  not_stdin :
      (dir : String) (pathes : List String) → (dir == "-") ≡ false → is_stdin (dir ∷ pathes) ≡ false
  not_stdin dir [] named = named
  not_stdin dir (next ∷ pathes) named = refl

  -- With no search directory neither command takes a directory: the bundle that is made of it has no
  -- version, so the download refuses it, and the command ends with that error at the directory,
  -- whatever stands in it, without having done anything.
  pub cmd-directory_refused :
      (dir : String) (pathes : List String) (s : State)
      → (dir == "-") ≡ false
      → console.lstat dir s ≡ ok true
      → (download_cmd console scheme unsearched (dir ∷ pathes) s ≡ (some refusal, s))
        × (template_cmd console scheme unsearched (dir ∷ pathes) s
            ≡ (some ("download: " <> refusal), s))
  unfolding download_cmd template_cmd for_bundle_in_pathes for_pathes for_objects bundle_from_dir
      template
  cmd-directory_refused dir pathes s named is_dir =
      let refused = download_unversioned (bundle_from_dir console dir s) s refl in
      rw (not_stdin dir pathes named) (
        for_pathes-directory (download_one console scheme unsearched) scheme console
            (bundle_from_dir console) dir refusal pathes s s is_dir (rw refused),
        for_pathes-directory (template_one console scheme unsearched) scheme console
            (bundle_from_dir console) dir ("download: " <> refusal) pathes s s is_dir (rw refused),
      )
