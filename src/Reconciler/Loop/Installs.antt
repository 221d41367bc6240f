-- ===== src/Reconciler/Loop/Installs.antt =====
-- What a successful call of `Reconcile` on a kustomize bundle makes of the cluster.
use mathlib.Core.Path.{subst}
use bundle_controller.Base.{
  String, false, none, List, [], ◌≡◌, refl, ◌∙◌, sym, ap, arith, ◌==◌, string_eq, Result, ok, All,
  Perm, true,
}
use bundle_controller.Types.{
  Bundle, ObjectReference, reference_eq, bundle_kind_kustomize, phase_installed,
  annotation_ignore_option_on_update,
}
use bundle_controller.Resource.{Unstructured, get_reference, is_skiped_on}
use bundle_controller.Cluster.{
  IsStorable, Client, Platform, Reply, reply, IsFaithful, KeepsReferences,
}
use bundle_controller.Manifest.{split_yaml}
use bundle_controller.Diff.{diff}
use bundle_controller.Diff.Partition.{references}
use bundle_controller.Diff.Removes.{IsPlain}
use bundle_controller.Sync.Store.{Contents, Same, IsStore}
use bundle_controller.Sync.Desired.{desired}
use bundle_controller.Outcome.{Outcome}
use bundle_controller.Native.{
  TemplateFun, Tools, kustomize_build_func, is_up_to_date, set_namespace_if_not_set,
  target_namespace,
}
use bundle_controller.Native.Contents.{apply-desired}
use bundle_controller.Helm.Sdk.{Sdk}
use bundle_controller.Download.{download}
use bundle_controller.Download.Host.{FileSystem}
use bundle_controller.Applier.{apply, BundleApplier}
use bundle_controller.Applier.Twice.{applier, apply-kustomize}
use bundle_controller.Reconciler.Api.{Api, Libraries}
use bundle_controller.Reconciler.Dependencies.{check_depenency}
use bundle_controller.Reconciler.Values.{resolve_values_ref}
use bundle_controller.Reconciler.Loop.{reconcile, has_finalizer, is_deleted, done}
use bundle_controller.Reconciler.Loop.Settled.{sync-apply, reconcile-synced}
use bundle_controller.Reconciler.Loop.Cleanup.{KeepsContents}

module _ (p : Platform) (c : Client) (t : Tools) (h : Sdk c.State) (f : FileSystem c.State)
    (build : String → c.State → Result String) (template_fun : TemplateFun c.State)
    (cache_dir : String) (l : Libraries) (api : Api c.State) where
  abbrev a : BundleApplier c.State
  a = applier p c t h f build template_fun cache_dir

  -- A call that installs or upgrades a kustomize bundle does what it aims at. Let the bundle have its
  -- finalizer, be neither disabled nor deleted, and be ready; let its values resolve, its download
  -- succeed, its directory build to a text that can be read, and the bundle not be found up to date;
  -- let the applier succeed and the API server take the written status. Then the call succeeds, and
  -- afterwards there is a living object, but for namespaces, exactly if it was rendered or lived
  -- before, and no managed reference that is not rendered denotes it, be it with another version; the
  -- status that was written is `Installed` and manages what was rendered. No search directory is
  -- given, and the download leaves the cluster alone; the rendered objects are storable, are not
  -- being deleted and do not ignore updates, the managed references are such as `GetReference`
  -- returns, and the runtime and the servers keep to their documentation.
  pub reconcile-installs :
      (same : Same) (lives fades : c.State → Contents) (r : ObjectReference)
      (b resolved got answer : Bundle) (into text : String) (objs : List Unstructured)
      (s after u : c.State)
      → IsStore c same lives fades
      → IsFaithful p
      → KeepsReferences c
      → KeepsContents api lives
      → (r.kind == "Namespace") ≡ false
      → api.get_bundle b.namespace b.name s ≡ reply b
      → b.spec.disabled ≡ false
      → is_deleted b ≡ false
      → has_finalizer l b ≡ true
      → check_depenency api b s ≡ none
      → resolve_values_ref l api b s ≡ ok resolved
      → download f h resolved cache_dir [] s ≡ (ok into, got, after)
      → lives after r ≡ lives s r
      → got.spec.kind ≡ bundle_kind_kustomize
      → build into after ≡ ok text
      → (split_yaml t.decode text).failure ≡ none
      → set_namespace_if_not_set t (target_namespace got) (split_yaml t.decode text).objs ≡ objs
      → is_up_to_date p c t got (diff p got.status.resources objs) ≡ false
      → All IsPlain got.status.resources
      → All (IsStorable c) objs
      → All (λ item. fades after (get_reference item) ≡ false) objs
      → All (λ item. is_skiped_on item annotation_ignore_option_on_update ≡ false) objs
      → (apply a resolved s).failure ≡ none
      → api.update_status (apply a resolved s).bundle (apply a resolved s).state ≡ (reply answer, u)
      → (reconcile l api a b.namespace b.name s ≡ (done, u))
        × (lives u r ≡ desired same got.status.resources objs (lives s) r)
        × ((apply a resolved s).bundle.status.phase ≡ phase_installed)
        × Perm (apply a resolved s).bundle.status.resources (references objs)
  reconcile-installs same lives fades r b resolved got answer into text objs s after u store
        faithful keeps contents other read enabled present guarded ready resolving downloaded quiet
        kind built readable placed stale plain storable calm updates fine written =
      let o = apply a resolved s in
      let applied =
        apply-kustomize p c t h f build template_fun cache_dir resolved got into s after downloaded
          kind in
      let (held, installed, manages) =
        apply-desired p c t same lives fades store r other faithful (kustomize_build_func build) got
          got into text objs after keeps (rw built refl) readable placed stale plain storable calm
          updates (ap (λ (w : Outcome c.State). w.failure) (sym applied) ∙ fine) in
      (
        reconcile-synced l api a b s o read present guarded
              (sync-apply l api a b resolved s (ground arith) ready resolving) fine
            ∙ rw written refl,
        ap (λ (w : Reply Bundle × c.State). lives w.1 r) (sym written)
            ∙ contents o.bundle o.state r
            ∙ ap (λ (w : Outcome c.State). lives w.state r) applied
            ∙ held
            ∙ rw quiet refl,
        ap (λ (w : Outcome c.State). w.bundle.status.phase) applied ∙ installed,
        subst (λ (w : Outcome c.State). Perm w.bundle.status.resources (references objs))
            (sym applied) manages,
      )
