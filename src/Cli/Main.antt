-- ===== src/Cli/Main.antt =====
-- cmd/bundle/main.go, cmd/bundle/apps/apps.go and cmd/bundle/apps/run.go: the program, from its
-- arguments to its exit code. cobra reads the arguments.
pub mod Refusal
pub mod Append
use bundle_controller.Base.{String, ◌<>◌, ℕ, Bool, false, Option, none, some, List, []}
use bundle_controller.Types.{Bundle}
use bundle_controller.Cluster.{Client, Platform}
use bundle_controller.Native.{Tools}
use bundle_controller.Native.Kustomize.{Kustomizer, kustomize_build}
use bundle_controller.Helm.Sdk.{Sdk}
use bundle_controller.Template
use bundle_controller.Template.Engine.{Helm}
use bundle_controller.Download.Host.{FileSystem}
use bundle_controller.Manifest.Filtered.{Scheme}
use bundle_controller.Applier.{BundleApplier}
use bundle_controller.Applier.Default.{new_default_apply}
use bundle_controller.Reconciler.Api.{Api, Libraries}
use bundle_controller.Startup
use bundle_controller.Startup.{Options, BundleOptions, Runtime, new_default_options}
use bundle_controller.Cli.{Console, download_cmd, template_cmd}

-- The flags of `run`.
pub record RunFlags : Type 0 where
  pub metrics_addr : String
  pub probe_addr : String
  pub enable_leader_election : Bool

-- `NewDefaultOptions` of pkg/bundle
abbrev pub default_bundle_options : BundleOptions
default_bundle_options = record { cache_dir = ""; search_dirs = [] }

abbrev run_flags : Options → RunFlags
run_flags options = record {
  metrics_addr = options.metrics_addr;
  probe_addr = options.probe_addr;
  enable_leader_election = options.enable_leader_election;
}

-- The options of the manager after the flags are read.
abbrev with_flags : RunFlags → Options → Options
with_flags flags options = record options {
  metrics_addr = flags.metrics_addr;
  probe_addr = flags.probe_addr;
  enable_leader_election = flags.enable_leader_election;
}

-- A command with what it is given.
pub data Command : Type 0 where
  run : RunFlags → Command
  download template : List String → Command

-- What cobra makes of the arguments: an error, the text of a help, or a command with the flags of all.
pub data Line : Type 0 where
  refused help : String → Line
  called : BundleOptions → Command → Line

-- cobra, which is handed the defaults of the flags.
abbrev pub Cobra : Type 0
Cobra = BundleOptions → RunFlags → List String → Line

abbrev pub reads : Cobra → List String → Line
reads cobra args = cobra default_bundle_options (run_flags new_default_options) args

-- const ErrExitCode
abbrev pub err_exit_code : ℕ
err_exit_code = 1

-- The exit code, after the error is printed.
abbrev pub exit : {State : Type 0} → Console State → Option String × State → ℕ × State
exit console (some message, s) = (err_exit_code, console.print (message <> "\n") s)
exit console (none, s) = (0, s)

module _ (p : Platform) (c : Client) (t : Tools) (h : Sdk c.State) (f : FileSystem c.State)
    (l : Libraries) (api : Api c.State) {Resources Loaded Manager Object : Type 0}
    (k : Kustomizer c.State Resources) (e : Helm c.State Loaded) (r : Runtime c.State Manager)
    (scheme : Scheme Object Bundle) (console : Console c.State) where
  -- The appliers of `download` and `template` have no configuration and no client, and the methods
  -- that those call use none.
  abbrev pub local_apply : BundleOptions → BundleApplier c.State
  local_apply options =
      new_default_apply p c t h f (kustomize_build k) (Template.template e false) options.cache_dir
        options.search_dirs

  -- The `RunE` of a command.
  unfoldable pub run_e : BundleOptions → Command → c.State → Option String × c.State
  run_e options (run flags) s =
      Startup.run p c t h f l api (kustomize_build k) e r (with_flags flags new_default_options)
        options s
  run_e options (download args) s = download_cmd console scheme (local_apply options) args s
  run_e options (template args) s = template_cmd console scheme (local_apply options) args s

  abbrev pub executed : Line → c.State → Option String × c.State
  executed (refused message) s = (some message, s)
  executed (help text) s = (none, console.print text s)
  executed (called options command) s = run_e options command s

  -- `NewBundleControllerCmd` and its `Execute`
  abbrev pub execute : Cobra → List String → c.State → Option String × c.State
  execute cobra args s = executed (reads cobra args) s

  unfoldable pub main : Cobra → List String → c.State → ℕ × c.State
  main cobra args s = exit console (execute cobra args s)
