-- ===== src/Reconciler/Loop/Cleanup.antt =====
-- What a deleted kustomize or template bundle leaves in the cluster.
use bundle_controller.Base.{
  String, true, false, not, ◌&&◌, none, List, [], ◌≡◌, ◌⊎◌, inl, inr, ◌∙◌, sym, ap, All, ◌==◌,
  string_eq, Result, lookup,
}
use bundle_controller.Types.{
  Bundle, ObjectReference, reference_eq, phase_disabled, bundle_kind_kustomize,
  bundle_kind_template,
}
use bundle_controller.Cluster.{Client, Platform, Reply, reply, IsFaithful, KeepsReferences}
use bundle_controller.Diff.Removes.{IsPlain}
use bundle_controller.Sync.Store.{Contents, Same, denotes, IsStore}
use bundle_controller.Native
use bundle_controller.Native.{TemplateFun, Tools}
use bundle_controller.Native.Failures.{remove-disabled}
use bundle_controller.Native.Contents.{remove-desired}
use bundle_controller.Outcome.{Outcome}
use bundle_controller.Applier.{BundleApplier, remove, new_default_appliers}
use bundle_controller.Applier.Default.{new_default_apply, native_methods}
use bundle_controller.Helm.Sdk.{Sdk}
use bundle_controller.Download.Host.{FileSystem}
use bundle_controller.Reconciler.Api.{Api, Libraries, IsLawful}
use bundle_controller.Reconciler.Loop.{
  reconcile, has_finalizer, is_finished, is_deleted, updated, release, done,
}
use bundle_controller.Reconciler.Wire.{Wire, carried, KeepsAllElse}
use bundle_controller.Reconciler.Loop.Deletion.{appliers, stored_after, reconcile-deletion}

-- A write of the status creates and deletes no object.
abbrev pub KeepsContents : {State : Type 0} → Api State → (State → Contents) → Type 0
KeepsContents {State} api lives =
    (b : Bundle) (s : State) (r : ObjectReference) → lives (api.update_status b s).1 r ≡ lives s r

-- The bundle is of a kind of the native applier.
abbrev pub IsNative : Bundle → Type 0
IsNative b = (b.spec.kind ≡ bundle_kind_kustomize) ⊎ (b.spec.kind ≡ bundle_kind_template)

module _ (p : Platform) (c : Client) (t : Tools) (h : Sdk c.State) (f : FileSystem c.State)
    (build : String → c.State → Result String) (template_fun : TemplateFun c.State)
    (cache_dir : String) (search_dirs : List String) (l : Libraries) (api : Api c.State) where
  abbrev a : BundleApplier c.State
  a = appliers p c t h f build template_fun cache_dir search_dirs l api

  remove-native : (b : Bundle) (s : c.State) → IsNative b → remove a b s ≡ Native.remove p c t b s
  unfolding remove new_default_apply new_default_appliers native_methods lookup
  remove-native b s (inl kustomized) = simp (remove, kustomized)
  remove-native b s (inr templated) = simp (remove, templated)

  -- The bundle after its removal.
  abbrev pub emptied : Bundle → Bundle
  emptied b = record b {
    status = record b.status { resources = []; phase = phase_disabled; message = "" };
  }

  -- That bundle as it is stored.
  abbrev pub stored_empty : Wire → Bundle → Bundle
  stored_empty w b = record (emptied b) { status = carried w (emptied b).status }

  -- A removal that succeeds asks for the deletion of all that a deleted kustomize or template bundle
  -- manages before the bundle is released. Let it have its finalizer and be neither failed nor
  -- disabled, let its removal succeed and leave the stored object as it is, and let the API server
  -- take the written status. Then the call succeeds; afterwards the objects that live are, but for
  -- namespaces, exactly those that lived before and that the bundle did not manage, where an object
  -- that is still being deleted does not live: the code does not wait for its end. The stored bundle
  -- is `Disabled` and manages nothing, and the next call takes the finalizer away. The managed
  -- references are such as `GetReference` returns, and the runtime, the libraries and the servers
  -- keep to their documentation.
  pub reconcile-cleanup :
      (same : Same) (lives fades : c.State → Contents) (w : Wire) (r : ObjectReference)
      (b answer : Bundle) (s after : c.State)
      → IsStore c same lives fades
      → IsFaithful p
      → KeepsReferences c
      → KeepsAllElse w api
      → KeepsContents api lives
      → IsLawful l
      → (r.kind == "Namespace") ≡ false
      → IsNative b
      → All IsPlain b.status.resources
      → api.get_bundle b.namespace b.name s ≡ reply b
      → is_deleted b ≡ true
      → has_finalizer l b ≡ true
      → is_finished l b ≡ false
      → (remove a b s).failure ≡ none
      → api.get_bundle b.namespace b.name (remove a b s).state ≡ reply b
      → api.update_status (emptied b) (remove a b s).state ≡ (reply answer, after)
      → (reconcile l api a b.namespace b.name s ≡ (done, after))
        × (lives after r ≡ (lives s r && not (denotes same b.status.resources r)))
        × (api.get_bundle b.namespace b.name after ≡ reply (stored_empty w b))
        × (reconcile l api a b.namespace b.name after
            ≡ updated false (api.update (release l (stored_empty w b)) after))
  reconcile-cleanup same lives fades w r b answer s after store faithful refs keeps contents laws
        other native plain read deleted guarded unfinished fine still written =
      let removed : remove a b s ≡ Native.remove p c t b s = remove-native b s native in
      let fine_native = ap (λ (o : Outcome c.State). o.failure) (sym removed) ∙ fine in
      let left : (remove a b s).bundle ≡ emptied b =
        ap (λ (o : Outcome c.State). o.bundle) removed
        ∙ remove-disabled p c t b s faithful refs fine_native in
      let kept : stored_after p c t h f build template_fun cache_dir search_dirs l api w b s
          ≡ stored_empty w b =
        ap (λ (x : Bundle). record x { status = carried w x.status }) left in
      let (called, stored, disabled, unguarded, next) =
        reconcile-deletion p c t h f build template_fun cache_dir search_dirs l api w b answer s
          after keeps laws read deleted guarded unfinished fine still (rw left written) in
      (
        called,
        ap (λ (reported : Reply Bundle × c.State). lives reported.1 r) (sym written)
            ∙ contents (emptied b) (remove a b s).state r
            ∙ ap (λ (o : Outcome c.State). lives o.state r) removed
            ∙ remove-desired p c t same lives fades store r other faithful b s plain fine_native,
        stored ∙ ap reply kept,
        next ∙ ap (λ (x : Bundle). updated false (api.update (release l x) after)) kept,
      )
