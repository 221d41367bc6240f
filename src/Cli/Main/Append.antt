-- ===== src/Cli/Main/Append.antt =====
-- The program on the paths of two lists.
use mathlib.Core.Path.{subst}
use bundle_controller.Base.{
  String, ℕ, false, List, ◌++◌, ◌≡◌, ◌⊎◌, refl, ◌==◌, string_eq, nat_eq, inl, inr, sym, ◌∙◌,
  if◌then◌else◌, some, none, ap, Option,
}
use bundle_controller.Types.{Bundle}
use bundle_controller.Cluster.{Client, Platform}
use bundle_controller.Native.{Tools}
use bundle_controller.Native.Kustomize.{Kustomizer}
use bundle_controller.Helm.Sdk.{Sdk}
use bundle_controller.Template.Engine.{Helm}
use bundle_controller.Download.Host.{FileSystem}
use bundle_controller.Manifest.Filtered.{Scheme}
use bundle_controller.Reconciler.Api.{Api, Libraries}
use bundle_controller.Startup.{BundleOptions, Runtime}
use bundle_controller.Cli.{
  Console, is_stdin, bundle_from_dir, download_cmd, template_cmd, download_one, template_one,
}
use bundle_controller.Cli.Sequence.{then_run, for_bundle_in_pathes-append}
use bundle_controller.Cli.Main.{
  Command, called, download, template, Cobra, main, exit, run_e, executed, local_apply, reads,
}

module _ (p : Platform) (c : Client) (t : Tools) (h : Sdk c.State) (f : FileSystem c.State)
    (l : Libraries) (api : Api c.State) {Resources Loaded Manager Object : Type 0}
    (k : Kustomizer c.State Resources) (e : Helm c.State Loaded) (r : Runtime c.State Manager)
    (scheme : Scheme Object Bundle) (console : Console c.State) (cobra : Cobra) where
  -- A second process that is started exactly if the first ends with the exit code 0.
  abbrev pub and_main : List String → ℕ × c.State → ℕ × c.State
  and_main args (code, s) =
      if code == 0 then main p c t h f l api k e r scheme console cobra args s else (code, s)

  and_main-exit :
      (args : List String) (ended : Option String × c.State)
      (next : c.State → Option String × c.State)
      → ((s : c.State)
          → main p c t h f l api k e r scheme console cobra args s ≡ exit console (next s))
      → exit console (then_run ended next) ≡ and_main args (exit console ended)
  and_main-exit args (some message, s) next runs = refl
  and_main-exit args (none, s) next runs = sym (runs s)

  run_e-append :
      (command : List String → Command) (options : BundleOptions) (pathes more : List String)
      (s : c.State)
      → (command ≡ download) ⊎ (command ≡ template)
      → is_stdin pathes ≡ false
      → is_stdin more ≡ false
      → run_e p c t h f l api k e r scheme console options (command (pathes ++ more)) s
        ≡ then_run
            (run_e p c t h f l api k e r scheme console options (command pathes) s)
            (run_e p c t h f l api k e r scheme console options (command more))
  unfolding run_e download_cmd template_cmd
  run_e-append command options pathes more s local named also =
      let apply = local_apply p c t h f l api k e r scheme console options in
      let run = run_e p c t h f l api k e r scheme console options in
      elim local [
        | inl is_download ↦
            subst (λ g. run (g (pathes ++ more)) s ≡ then_run (run (g pathes) s) (run (g more)))
              (sym is_download)
              (for_bundle_in_pathes-append (download_one console scheme apply) scheme console
                (bundle_from_dir console) pathes more s named also)
        | inr is_template ↦
            subst (λ g. run (g (pathes ++ more)) s ≡ then_run (run (g pathes) s) (run (g more)))
              (sym is_template)
              (for_bundle_in_pathes-append (template_one console scheme apply) scheme console
                (bundle_from_dir console) pathes more s named also)
      ]

  -- Downloads and templates of one call may be split into two: where none of the two lists of paths
  -- stands for the standard input, the call with the paths of both is the call with the first paths
  -- and, if its exit code is 0, the call with the others; the exit code and all effects are the same.
  pub main-append :
      (command : List String → Command) (options : BundleOptions)
      (first second both pathes more : List String) (s : c.State)
      → (command ≡ download) ⊎ (command ≡ template)
      → reads cobra first ≡ called options (command pathes)
      → reads cobra second ≡ called options (command more)
      → reads cobra both ≡ called options (command (pathes ++ more))
      → is_stdin pathes ≡ false
      → is_stdin more ≡ false
      → main p c t h f l api k e r scheme console cobra both s
        ≡ and_main second (main p c t h f l api k e r scheme console cobra first s)
  unfolding main run_e
  main-append command options first second both pathes more s local one two all named also =
      let run = run_e p c t h f l api k e r scheme console options in
      ap (λ line. exit console (executed p c t h f l api k e r scheme console line s)) all
      ∙ ap (exit console) (run_e-append command options pathes more s local named also)
      ∙ and_main-exit second (run (command pathes) s) (run (command more)) (λ u.
        ap (λ line. exit console (executed p c t h f l api k e r scheme console line u)) two)
      ∙ sym (
          ap
            (λ line.
              and_main second (exit console (executed p c t h f l api k e r scheme console line s)))
            one)
