-- ===== src/Native/Apart.antt =====
-- What the native applier leaves alone.
use bundle_controller.Base.{
  String, false, List, [], ◌≡◌, refl, arith, All, contains, Result, ok, err, Bool-cases,
  Option-cases, inl, inr,
}
use bundle_controller.Types.{Bundle, ObjectReference, reference_eq}
use bundle_controller.Resource.{Unstructured}
use bundle_controller.Cluster.{Client, Platform, IsFaithful}
use bundle_controller.Manifest.{Split, split_yaml}
use bundle_controller.Diff.{diff}
use bundle_controller.Diff.Removes.{IsPlain}
use bundle_controller.Sync.{Synced, sync, new_default_sync_options}
use bundle_controller.Sync.Apart.{IsApart, Avoids, sync_diff-view}
use bundle_controller.Native.{
  TemplateFun, Tools, apply, apply_rendered, apply_split, apply_resources, record_sync,
  is_up_to_date, remove, note_removal, set_namespace_if_not_set, target_namespace,
}

module _ (p : Platform) (c : Client) (t : Tools) {A : Type 0} (view : c.State → A)
    (self : ObjectReference) (apart : IsApart c view self) (faithful : IsFaithful p) where
  record_sync-state :
      (synced : Synced p c) (ns : String) (bundle : Bundle)
      → (record_sync p c t synced ns bundle).state ≡ synced.cluster
  unfolding record_sync
  record_sync-state synced ns bundle = ground arith

  note_removal-state :
      (synced : Synced p c) (bundle : Bundle)
      → (note_removal p c t synced bundle).state ≡ synced.cluster
  unfolding note_removal
  note_removal-state synced bundle = ground arith

  apply_resources-view :
      (resources : List Unstructured) (ns : String) (bundle : Bundle) (s : c.State)
      → All IsPlain bundle.status.resources
      → contains bundle.status.resources self ≡ false
      → Avoids self resources
      → view (apply_resources p c t resources ns bundle s).state ≡ view s
  unfolding apply_resources
  apply_resources-view resources ns bundle s plain unmanaged avoids =
      let d = diff p bundle.status.resources resources in
      elim (Bool-cases (is_up_to_date p c t bundle d)) [
        | inl same ↦ rw same refl
        | inr other ↦
            rw (other, record_sync-state)
              (sync_diff-view p c new_default_sync_options view self apart bundle.status.resources
                resources s faithful plain unmanaged avoids)
      ]

  -- What a rendered text holds, in the namespace that it is placed in.
  abbrev pub placed : Bundle → String → List Unstructured
  placed bundle text =
      set_namespace_if_not_set t (target_namespace bundle) (split_yaml t.decode text).objs

  apply_split-view :
      (split : Split) (bundle : Bundle) (s : c.State)
      → All IsPlain bundle.status.resources
      → contains bundle.status.resources self ≡ false
      → Avoids self (set_namespace_if_not_set t (target_namespace bundle) split.objs)
      → view (apply_split p c t split bundle s).state ≡ view s
  unfolding apply
  apply_split-view split bundle s plain unmanaged avoids = elim (Option-cases split.failure) [
    | inl readable ↦
        rw readable
          (apply_resources-view _ (target_namespace bundle) bundle s plain unmanaged avoids)
    | inr (message, unreadable) ↦ rw unreadable refl
  ]

  -- What is rendered and what is managed are other objects.
  abbrev pub Elsewhere : Result String × Bundle → Type 0
  Elsewhere (err message, bundle) = Unit
  Elsewhere (ok text, bundle) =
      All IsPlain bundle.status.resources
      × (contains bundle.status.resources self ≡ false)
      × Avoids self (placed bundle text)

  apply_rendered-view :
      (r : Result String × Bundle) (s : c.State)
      → Elsewhere r
      → view (apply_rendered p c t r s).state ≡ view s
  unfolding apply
  apply_rendered-view (err message, bundle) s elsewhere = refl
  apply_rendered-view (ok text, bundle) s (plain, unmanaged, avoids) =
      apply_split-view (split_yaml t.decode text) bundle s plain unmanaged avoids

  pub apply-view :
      (template_fun : TemplateFun c.State) (bundle : Bundle) (into : String) (s : c.State)
      → Elsewhere (template_fun bundle into s)
      → view (apply p c t template_fun bundle into s).state ≡ view s
  unfolding apply
  apply-view template_fun bundle into s elsewhere =
      apply_rendered-view (template_fun bundle into s) s elsewhere

  pub remove-view :
      (bundle : Bundle) (s : c.State)
      → All IsPlain bundle.status.resources
      → contains bundle.status.resources self ≡ false
      → view (remove p c t bundle s).state ≡ view s
  unfolding remove sync
  remove-view bundle s plain unmanaged = rw note_removal-state (
      sync_diff-view p c new_default_sync_options view self apart bundle.status.resources [] s
        faithful plain unmanaged tt)
