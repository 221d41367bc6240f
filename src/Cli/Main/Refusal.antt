-- ===== src/Cli/Main/Refusal.antt =====
-- The program on a directory, without search directories.
use bundle_controller.Base.{String, ◌<>◌, true, false, List, [], ◌∷◌, ◌≡◌, ◌==◌, string_eq, ok, ap}
use bundle_controller.Types.{Bundle}
use bundle_controller.Cluster.{Client, Platform}
use bundle_controller.Native.{Tools}
use bundle_controller.Native.Kustomize.{Kustomizer}
use bundle_controller.Helm.Sdk.{Sdk}
use bundle_controller.Template.Engine.{Helm}
use bundle_controller.Download.Host.{FileSystem}
use bundle_controller.Manifest.Filtered.{Scheme}
use bundle_controller.Applier.Default.{new_default_apply}
use bundle_controller.Reconciler.Api.{Api, Libraries}
use bundle_controller.Startup.{Runtime}
use bundle_controller.Cli.{Console}
use bundle_controller.Cli.Directories.{refusal, cmd-directory_refused}
use bundle_controller.Cli.Main.{
  called, download, template, Cobra, main, exit, run_e, local_apply, reads, err_exit_code,
}

module _ (p : Platform) (c : Client) (t : Tools) (h : Sdk c.State) (f : FileSystem c.State)
    (l : Libraries) (api : Api c.State) {Resources Loaded Manager Object : Type 0}
    (k : Kustomizer c.State Resources) (e : Helm c.State Loaded) (r : Runtime c.State Manager)
    (scheme : Scheme Object Bundle) (console : Console c.State) (cobra : Cobra) where
  -- Where no search directory is given, as by default, a command line that asks for the download or
  -- for the template of a directory, and of more paths after it, ends with the exit code 1 and the
  -- message that no version is specified, whatever stands in the directory; it changes nothing else.
  pub main-directory_refused :
      (downloading templating : List String) (cache_dir dir : String) (pathes : List String)
      (s : c.State)
      → reads cobra downloading
        ≡ called (record { cache_dir = cache_dir; search_dirs = [] }) (download (dir ∷ pathes))
      → reads cobra templating
        ≡ called (record { cache_dir = cache_dir; search_dirs = [] }) (template (dir ∷ pathes))
      → (dir == "-") ≡ false
      → console.lstat dir s ≡ ok true
      → (main p c t h f l api k e r scheme console cobra downloading s
          ≡ (err_exit_code, console.print (refusal <> "\n") s))
        × (main p c t h f l api k e r scheme console cobra templating s
            ≡ (err_exit_code, console.print ("download: " <> refusal <> "\n") s))
  unfolding main run_e new_default_apply
  main-directory_refused downloading templating cache_dir dir pathes s asked also named is_dir =
      let refused =
        cmd-directory_refused console scheme f h
          (local_apply p c t h f l api k e r scheme console
            (record { cache_dir = cache_dir; search_dirs = [] })).appliers
          cache_dir dir pathes s named is_dir in
      (rw asked (ap (exit console) refused.0), rw also (ap (exit console) refused.1))
