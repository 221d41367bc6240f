-- ===== src/Native/Contents.antt =====
-- What the cluster lives after `Remove`, and after `Apply` and `Remove`.
use bundle_controller.Base.{
  contains, any-contained, passing, Bool-cases, String, false, not, ◌&&◌, none, List, [], ◌∷◌, ◌≡◌,
  ◌≢◌, ◌∙◌, sym, ap, arith, ok, refl, ==_iff, ◌==◌, string_eq, any, ◌||◌, true, any-perm, Bool, All,
  Perm, Option-cases, inl, inr,
}
use mathlib.Core.Path.{subst}
use bundle_controller.Types.{
  Bundle, ObjectReference, reference_eq, phase_installed, annotation_ignore_option_on_update,
}
use bundle_controller.Resource.{Unstructured, get_reference, is_skiped_on}
use bundle_controller.Cluster.{IsStorable, Client, Platform, IsFaithful, KeepsReferences}
use bundle_controller.Manifest.{split_yaml}
use bundle_controller.Outcome.{Outcome}
use bundle_controller.Diff.{diff}
use bundle_controller.Diff.Partition.{references}
use bundle_controller.Diff.Members.{All-creats_diff}
use bundle_controller.Diff.Removes.{IsPlain, get_reference-IsPlain}
use bundle_controller.Sync.{sync, new_default_sync_options}
use bundle_controller.Sync.Store.{Contents, Same, denotes, IsStore}
use bundle_controller.Sync.Managed.{sync-perm}
use bundle_controller.Sync.Desired.{desired, outdated, sync-desired}
use bundle_controller.Native.{
  TemplateFun, Tools, apply, apply_resources, remove, note_removal, set_namespace_if_not_set,
  target_namespace, is_up_to_date, installed_status,
}
use bundle_controller.Native.Recorded.{first_sync, recorded, first-cases}

abbrev is_other : ObjectReference → Bool
is_other k = not (k.other == "")

any-is_other : (l : List ObjectReference) → All IsPlain l → any is_other l ≡ false
any-is_other [] plain = refl
any-is_other (k ∷ l) (plain, rest) = ground (arith, any-is_other l rest, ==_iff k.other "")

is_other-IsPlain : (l : List ObjectReference) → any is_other l ≡ false → All IsPlain l
is_other-IsPlain [] none_other = tt
is_other-IsPlain (k ∷ l) none_other =
    (ground (arith, ==_iff k.other ""), is_other-IsPlain l (ground arith))

Perm-IsPlain : (xs ys : List ObjectReference) → Perm xs ys → All IsPlain ys → All IsPlain xs
Perm-IsPlain xs ys same plain = is_other-IsPlain xs (any-perm is_other same ∙ any-is_other ys plain)

references-IsPlain : (items : List Unstructured) → All IsPlain (references items)
references-IsPlain [] = tt
references-IsPlain (item ∷ items) = (get_reference-IsPlain item, references-IsPlain items)

module _ (same : Same) (r : ObjectReference) where
  outdated-nil :
      (managed : List ObjectReference) → outdated same managed [] r ≡ denotes same managed r
  outdated-nil [] = refl
  outdated-nil (m ∷ managed) = rw (outdated-nil managed) (ground arith)

  -- What a managed reference denotes is outdated or rendered.
  denotes-managed :
      (managed : List ObjectReference) (objs : List Unstructured)
      → denotes same managed r ≡ true
      → (outdated same managed objs r || denotes same (references objs) r) ≡ true
  denotes-managed managed objs owned =
      let (m, there, one) = passing (λ k. same k r) managed owned in
      elim (Bool-cases (contains (references objs) m)) [
        | inl rendered ↦
            ground (arith, any-contained (λ k. same k r) m (references objs) rendered one)
        | inr old ↦ ground (
          arith,
          any-contained (λ k. same k r && not (contains (references objs) k)) m managed there
              (rw (one, old) refl),
        )
      ]

  outdated-managed :
      (managed : List ObjectReference) (objs : List Unstructured)
      → denotes same managed r ≡ false
      → outdated same managed objs r ≡ false
  outdated-managed [] objs none_owned = refl
  outdated-managed (m ∷ managed) objs none_owned =
      ground (arith, outdated-managed managed objs (ground arith))

  -- Removing what was rendered from what is aimed at leaves what was neither managed nor rendered.
  desired-removed :
      (managed : List ObjectReference) (objs : List Unstructured) (before : Contents)
      → (desired same managed objs before r && not (denotes same (references objs) r))
        ≡ (before r && not (denotes same managed r) && not (denotes same (references objs) r))
  desired-removed managed objs before = elim (Bool-cases (denotes same managed r)) [
    | inl owned ↦ ground (arith, denotes-managed managed objs owned)
    | inr none_owned ↦ ground (arith, outdated-managed managed objs none_owned)
  ]

module _ (p : Platform) (c : Client) (t : Tools) (same : Same) (lives fades : c.State → Contents)
    (store : IsStore c same lives fades) (r : ObjectReference)
    (other : (r.kind == "Namespace") ≡ false) (faithful : IsFaithful p) where
  -- A `Remove` that succeeds has the server delete all that the bundle manages.
  pub remove-desired :
      (bundle : Bundle) (s : c.State)
      → All IsPlain bundle.status.resources
      → (remove p c t bundle s).failure ≡ none
      → lives (remove p c t bundle s).state r
        ≡ (lives s r && not (denotes same bundle.status.resources r))
  unfolding remove
  remove-desired bundle s plain fine =
      let synced = sync p c bundle.status.resources [] new_default_sync_options s in
      elim (Option-cases synced.failure) [
        | inl none_failed ↦
            rw (none_failed, note_removal)
              (sync-desired p c new_default_sync_options same lives fades store r other
                  bundle.status.resources [] s faithful plain tt tt tt none_failed
                ∙ rw (outdated-nil same r bundle.status.resources) refl)
        | inr (message, failed) ↦ absurd (ground arith)
      ]

  apply_resources-recorded :
      (objs : List Unstructured) (ns : String) (bundle : Bundle) (s : c.State)
      → is_up_to_date p c t bundle (diff p bundle.status.resources objs) ≡ false
      → (apply_resources p c t objs ns bundle s).failure ≡ none
      → ((first_sync p c t objs ns bundle s).failure ≡ none)
        × (apply_resources p c t objs ns bundle s ≡ recorded p c t objs ns bundle s)
  apply_resources-recorded objs ns bundle s stale fine =
      elim (first-cases p c t objs ns bundle s fine) [
        | inl same ↦ absurd (cc (rw stale at same))
        | inr done ↦ done
      ]

  -- An `Apply` that succeeds and does not find the bundle up to date brings the cluster to what is
  -- desired, and records in the bundle that it is installed and manages what was rendered.
  pub apply-desired :
      (template_fun : TemplateFun c.State) (bundle rendered : Bundle) (into text : String)
      (objs : List Unstructured) (s : c.State)
      → KeepsReferences c
      → template_fun bundle into s ≡ (ok text, rendered)
      → (split_yaml t.decode text).failure ≡ none
      → set_namespace_if_not_set t (target_namespace rendered) (split_yaml t.decode text).objs
        ≡ objs
      → is_up_to_date p c t rendered (diff p rendered.status.resources objs) ≡ false
      → All IsPlain rendered.status.resources
      → All (IsStorable c) objs
      → All (λ item. fades s (get_reference item) ≡ false) objs
      → All (λ item. is_skiped_on item annotation_ignore_option_on_update ≡ false) objs
      → (apply p c t template_fun bundle into s).failure ≡ none
      → (lives (apply p c t template_fun bundle into s).state r
          ≡ desired same rendered.status.resources objs (lives s) r)
        × ((apply p c t template_fun bundle into s).bundle.status.phase ≡ phase_installed)
        × Perm (apply p c t template_fun bundle into s).bundle.status.resources (references objs)
  unfolding apply sync installed_status
  apply-desired template_fun bundle rendered into text objs s keeps templated readable placed stale
        plain storable calm updates fine =
      let ns = target_namespace rendered in
      let resources : apply p c t template_fun bundle into s
          ≡ apply_resources p c t objs ns rendered s =
        rw (templated, readable, placed) refl in
      let (synced, recorded_now) =
        apply_resources-recorded objs ns rendered s stale
          (ap (λ o. o.failure) (sym resources) ∙ fine) in
      subst
        (λ (o : Outcome c.State).
          (lives o.state r ≡ desired same rendered.status.resources objs (lives s) r)
          × (o.bundle.status.phase ≡ phase_installed)
          × Perm o.bundle.status.resources (references objs))
        (sym (resources ∙ recorded_now))
        (
          sync-desired p c new_default_sync_options same lives fades store r other
              rendered.status.resources objs s faithful plain storable calm updates synced,
          refl,
          sync-perm p c rendered.status.resources objs new_default_sync_options s faithful keeps
              (All-creats_diff (IsStorable c) p rendered.status.resources objs storable) synced,
        )

  fresh-stale :
      (bundle : Bundle) (objs : List Unstructured)
      → bundle.status.phase ≢ phase_installed
      → is_up_to_date p c t bundle (diff p bundle.status.resources objs) ≡ false
  unfolding is_up_to_date
  fresh-stale bundle objs fresh = ground (arith, ==_iff bundle.status.phase phase_installed)

  remove-recorded :
      (objs : List Unstructured) (ns : String) (bundle : Bundle) (s : c.State)
      → KeepsReferences c
      → All IsPlain bundle.status.resources
      → All (IsStorable c) objs
      → All (λ item. fades s (get_reference item) ≡ false) objs
      → All (λ item. is_skiped_on item annotation_ignore_option_on_update ≡ false) objs
      → (first_sync p c t objs ns bundle s).failure ≡ none
      → (remove p c t
          (recorded p c t objs ns bundle s).bundle
          (recorded p c t objs ns bundle s).state).failure
        ≡ none
      → lives
          (remove p c t
            (recorded p c t objs ns bundle s).bundle
            (recorded p c t objs ns bundle s).state).state
          r
        ≡ (lives s r
            && not (denotes same bundle.status.resources r)
            && not (denotes same (references objs) r))
  unfolding sync installed_status
  remove-recorded objs ns bundle s keeps plain storable calm updates fine gone =
      let synced = first_sync p c t objs ns bundle s in
      let alike : Perm synced.managed (references objs) =
        sync-perm p c bundle.status.resources objs new_default_sync_options s faithful keeps
          (All-creats_diff (IsStorable c) p bundle.status.resources objs storable) fine in
      let held =
        sync-desired p c new_default_sync_options same lives fades store r other
          bundle.status.resources objs s faithful plain storable calm updates fine in
      remove-desired (recorded p c t objs ns bundle s).bundle synced.cluster
        (Perm-IsPlain synced.managed (references objs) alike (references-IsPlain objs)) gone
      ∙ rw (held, any-perm (λ k. same k r) alike)
          (desired-removed same r bundle.status.resources objs (lives s))

  -- What a bundle installs is deleted by its removal: if an `Apply` of a bundle that was not installed
  -- and then a `Remove` of the bundle that it leaves succeed, the objects that live afterwards are,
  -- but for namespaces, exactly those that lived before and that the bundle neither managed nor
  -- rendered. An object that is being deleted, as long as finalizers keep it, does not live. The
  -- rendered objects are storable, are not being deleted before and do not ignore updates, the
  -- managed references are such as `GetReference` returns, nothing else writes in between, and the
  -- runtime and the server keep to their documentation.
  pub remove-apply :
      (template_fun : TemplateFun c.State) (bundle rendered : Bundle) (into text : String)
      (objs : List Unstructured) (s : c.State)
      → KeepsReferences c
      → template_fun bundle into s ≡ (ok text, rendered)
      → (split_yaml t.decode text).failure ≡ none
      → set_namespace_if_not_set t (target_namespace rendered) (split_yaml t.decode text).objs
        ≡ objs
      → rendered.status.phase ≢ phase_installed
      → All IsPlain rendered.status.resources
      → All (IsStorable c) objs
      → All (λ item. fades s (get_reference item) ≡ false) objs
      → All (λ item. is_skiped_on item annotation_ignore_option_on_update ≡ false) objs
      → (apply p c t template_fun bundle into s).failure ≡ none
      → (remove p c t
          (apply p c t template_fun bundle into s).bundle
          (apply p c t template_fun bundle into s).state).failure
        ≡ none
      → lives
          (remove p c t
            (apply p c t template_fun bundle into s).bundle
            (apply p c t template_fun bundle into s).state).state
          r
        ≡ (lives s r
            && not (denotes same rendered.status.resources r)
            && not (denotes same (references objs) r))
  unfolding apply
  remove-apply template_fun bundle rendered into text objs s keeps templated readable placed fresh
        plain storable calm updates fine gone =
      let ns = target_namespace rendered in
      let resources : apply p c t template_fun bundle into s
          ≡ apply_resources p c t objs ns rendered s =
        rw (templated, readable, placed) refl in
      let (synced, recorded_now) =
        apply_resources-recorded objs ns rendered s (fresh-stale rendered objs fresh)
          (ap (λ o. o.failure) (sym resources) ∙ fine) in
      subst
        (λ (o : Outcome c.State).
          (remove p c t o.bundle o.state).failure ≡ none
          → lives (remove p c t o.bundle o.state).state r ≡ (
              lives s r
              && not (denotes same rendered.status.resources r)
              && not (denotes same (references objs) r)))
        (sym (resources ∙ recorded_now))
        (remove-recorded objs ns rendered s keeps plain storable calm updates synced) gone
