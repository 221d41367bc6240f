-- ===== src/Applier/Removal.antt =====
-- What a removal by the default appliers leaves, whatever the kind of the bundle.
use bundle_controller.Base.{
  String, none, List, [], ◌∷◌, ◌≡◌, refl, Dict, All, arith, ◌==◌, string_eq, Result, lookup,
  Bool-cases, inl, inr,
}
use bundle_controller.Types.{Bundle, phase_disabled}
use bundle_controller.Cluster.{Client, Platform}
use bundle_controller.Outcome.{Outcome}
use bundle_controller.Native
use bundle_controller.Native.{TemplateFun, Tools}
use bundle_controller.Helm.Sdk.{Sdk}
use bundle_controller.Helm.Apply
use bundle_controller.Helm.Apply.Phases.{remove_twice}
use bundle_controller.Download.Host.{FileSystem}
use bundle_controller.Applier.{Methods, BundleApplier, remove, new_default_appliers}
use bundle_controller.Applier.Default.{new_default_apply, native_methods, helm_methods}

-- A removal that succeeds disables the bundle, and none changes anything of it but the status.
abbrev pub Disables : {S : Type 0} → Bundle → Outcome S → Type 0
Disables bundle o =
    (o.failure ≡ none → o.bundle.status.phase ≡ phase_disabled)
    × (o.bundle ≡ record bundle { status = o.bundle.status })

module _ {S : Type 0} (b : BundleApplier S) where
  -- Every applier of the list disables.
  abbrev EachDisables : Dict String (Methods S) → Type 0
  EachDisables = All (λ e. (bundle : Bundle) (s : S) → Disables bundle (e.1.remove bundle s))

  found-Disables :
      (appliers : Dict String (Methods S)) (bundle : Bundle) (s : S)
      → EachDisables appliers
      → Disables bundle (remove (record b { appliers = appliers }) bundle s)
  unfolding remove lookup
  found-Disables [] bundle s each = ((λ fine. cc), refl)
  found-Disables ((kind, a) ∷ appliers) bundle s (first, rest) =
      elim (Bool-cases (kind == bundle.spec.kind)) [
        | inl same ↦ rw (same, remove) (first bundle s)
        | inr other ↦ rw (other, remove) (found-Disables appliers bundle s rest)
      ]

module _ (p : Platform) (c : Client) (t : Tools) where
  native-Disables : (bundle : Bundle) (s : c.State) → Disables bundle (Native.remove p c t bundle s)
  unfolding Native.remove
  native-Disables bundle s = ((λ fine. ground arith), ground arith)

  module _ (h : Sdk c.State) where
    helm-Disables :
        (bundle : Bundle) (s : c.State) → Disables bundle (Apply.remove h t.decode bundle s)
    unfolding Apply.remove
    helm-Disables bundle s = ((λ fine. (remove_twice h t.decode bundle s fine).0), ground arith)

    module _ (f : FileSystem c.State) (build : String → c.State → Result String)
        (template_fun : TemplateFun c.State) (cache_dir : String) (search_dirs : List String) where
      abbrev pub default_applier : BundleApplier c.State
      default_applier = new_default_apply p c t h f build template_fun cache_dir search_dirs

      -- By the default appliers, a removal that succeeds disables the bundle, whatever its kind, and
      -- no removal changes anything of the bundle but its status.
      pub remove-Disables :
          (bundle : Bundle) (s : c.State) → Disables bundle (remove default_applier bundle s)
      unfolding new_default_apply new_default_appliers native_methods helm_methods
      remove-Disables bundle s =
          found-Disables default_applier default_applier.appliers bundle s
            (helm-Disables, (native-Disables, (native-Disables, tt)))
