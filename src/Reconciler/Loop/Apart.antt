-- ===== src/Reconciler/Loop/Apart.antt =====
-- What a synchronisation with the default appliers leaves alone, the stored bundle above all.
use mathlib.Core.Path.{subst}
use bundle_controller.Base.{
  String, false, ◌||◌, Option, none, some, List, ◌≡◌, refl, ◌∙◌, sym, ap, All, contains, Result, ok,
  err, Bool-cases, Option-cases, inl, inr,
}
use bundle_controller.Types.{Bundle, ObjectReference, reference_eq}
use bundle_controller.Cluster.{Client, Platform, IsFaithful}
use bundle_controller.Diff.Removes.{IsPlain}
use bundle_controller.Sync.Apart.{IsApart}
use bundle_controller.Native.{TemplateFun, Tools}
use bundle_controller.Helm.Sdk.{Sdk}
use bundle_controller.Helm.Cli.Apart.{IsSdkApart}
use bundle_controller.Download.{download}
use bundle_controller.Download.Host.{FileSystem}
use bundle_controller.Download.Unpack.Apart.{IsHostApart}
use bundle_controller.Applier.{BundleApplier}
use bundle_controller.Applier.Removal.{default_applier}
use bundle_controller.Applier.Apart.{GotElsewhere, apply-view, remove-view}
use bundle_controller.Reconciler.Api.{Api, Libraries}
use bundle_controller.Reconciler.Dependencies.{check_depenency}
use bundle_controller.Reconciler.Values.{resolve_values_ref}
use bundle_controller.Reconciler.Loop.{reconcile, sync, install, resolve_and_apply, is_deleted}
use bundle_controller.Reconciler.Loop.Lifecycle.{Edit, untouched, Step, reconciled}

module _ (p : Platform) (c : Client) (t : Tools) (h : Sdk c.State) (f : FileSystem c.State)
    (build : String → c.State → Result String) (template_fun : TemplateFun c.State)
    (cache_dir : String) (search_dirs : List String) {A : Type 0} (view : c.State → A)
    (self : ObjectReference) (cluster : IsApart c view self) (sdk : IsSdkApart h view)
    (host : IsHostApart f view) (faithful : IsFaithful p) (l : Libraries) (api : Api c.State) where
  abbrev a : BundleApplier c.State
  a = default_applier p c t h f build template_fun cache_dir search_dirs

  -- What is downloaded for the resolved bundle renders other objects.
  abbrev pub ResolvedElsewhere : c.State → Result Bundle → Type 0
  ResolvedElsewhere s (err message) = Unit
  ResolvedElsewhere s (ok r) =
      GotElsewhere p c t h f build template_fun cache_dir search_dirs view self cluster sdk host
        faithful (download f h r cache_dir search_dirs s)

  resolve_and_apply-view :
      (b : Bundle) (s : c.State) (resolved : Result Bundle)
      → ResolvedElsewhere s resolved
      → view (resolve_and_apply l api a b s resolved).state ≡ view s
  resolve_and_apply-view b s (err message) elsewhere = refl
  resolve_and_apply-view b s (ok r) elsewhere =
      apply-view p c t h f build template_fun cache_dir search_dirs view self cluster sdk host
        faithful r s elsewhere

  install-view :
      (b : Bundle) (s : c.State)
      → ResolvedElsewhere s (resolve_values_ref l api b s)
      → view (install l api a b s).state ≡ view s
  unfolding install
  install-view b s elsewhere = elim (Option-cases (check_depenency api b s)) [
    | inl ready ↦
        rw (ready, install) (resolve_and_apply-view b s (resolve_values_ref l api b s) elsewhere)
    | inr (message, unready) ↦ rw (unready, install) refl
  ]

  -- A synchronisation leaves all alone but the objects that it renders and manages, releases, and
  -- files: whatever its kind and whether it is installed or removed, with or without an error, a part
  -- of the state that no such write touches, as the stored bundle, is as it was. Neither what the
  -- bundle manages nor what it renders is the object that the part stands for; the managed references
  -- are such as `GetReference` returns; the map is visited faithfully, and the servers, the helm
  -- library and the file system keep to this part as they document.
  pub sync-view :
      (b : Bundle) (s : c.State)
      → All IsPlain b.status.resources
      → contains b.status.resources self ≡ false
      → ResolvedElsewhere s (resolve_values_ref l api b s)
      → view (sync l api a b s).state ≡ view s
  unfolding sync
  sync-view b s plain unmanaged elsewhere = elim (Bool-cases (b.spec.disabled || is_deleted b)) [
    | inl unwanted ↦
        rw (unwanted, sync)
          (remove-view p c t h f build template_fun cache_dir search_dirs view self cluster sdk host
            faithful b s plain unmanaged)
    | inr wanted ↦ rw (wanted, sync) (install-view b s elsewhere)
  ]

-- So a call of `Reconcile` is a step also where nothing is known of the others.
pub reconciled_apart :
    (p : Platform) (c : Client) (t : Tools) (h : Sdk c.State) (f : FileSystem c.State)
    (build : String → c.State → Result String) (template_fun : TemplateFun c.State)
    (cache_dir : String) (search_dirs : List String) (stored : c.State → Option Bundle)
    (self : ObjectReference) (cluster : IsApart c stored self) (sdk : IsSdkApart h stored)
    (host : IsHostApart f stored) (faithful : IsFaithful p) (l : Libraries) (api : Api c.State)
    (namespace name : String) (b : Bundle) (s : c.State)
    → stored s ≡ some b
    → All IsPlain b.status.resources
    → contains b.status.resources self ≡ false
    → ResolvedElsewhere p c t h f build template_fun cache_dir search_dirs stored self cluster sdk
        host faithful l api s
        (resolve_values_ref l api b s)
    → let by = default_applier p c t h f build template_fun cache_dir search_dirs in
      Step l api by namespace name stored s (reconcile l api by namespace name s).1
reconciled_apart p c t h f build template_fun cache_dir search_dirs stored self cluster sdk host
      faithful l api namespace name b s there plain unmanaged elsewhere =
    let by = default_applier p c t h f build template_fun cache_dir search_dirs in
    let same : stored (sync l api by b s).state ≡ some b =
      sync-view p c t h f build template_fun cache_dir search_dirs stored self cluster sdk host
        faithful l api b s plain unmanaged elsewhere
      ∙ there in
    let edit : Edit l (some b) (stored (sync l api by b s).state) =
      subst (λ (o : Option Bundle). Edit l (some b) o) (sym same) (untouched (some b)) in
    reconciled s (λ x found.
      subst (λ (y : Bundle). Edit l (some y) (stored (sync l api by y s).state))
        (ap (λ (o : Option Bundle). elim o [ none ↦ b | some y ↦ y ]) (sym there ∙ found)) edit)
