-- ===== src/Sync/Writes.antt =====
-- What the writes of `SyncDiff` do to the objects that the cluster holds.
use bundle_controller.Base.{
  String, false, not, ◌&&◌, ◌||◌, Option, none, some, List, [], ◌∷◌, ◌≡◌, refl, ◌∙◌, arith, ◌==◌,
  string_eq, All, Bool-cases, inl, inr,
}
use bundle_controller.Types.{
  ObjectReference, reference_eq, annotation_ignore_option_on_update,
  annotation_ignore_option_on_delete,
}
use bundle_controller.Resource.{Unstructured, get_reference, is_skiped_on}
use bundle_controller.Cluster.{IsStorable, ApiError, Client, Platform}
use bundle_controller.Diff.{DiffResult}
use bundle_controller.Diff.Partition.{references}
use bundle_controller.Sync.{
  SyncOptions, Progress, prepare_namespace, create_ns_if_not_exists, apply_options, note_created,
  note_applied, note_removed, create_one, apply_one, remove_one, create_all, apply_all, remove_all,
  run_diff, apply_resource,
}
use bundle_controller.Sync.References.{append-ne-nil}
use bundle_controller.Sync.Managed.{create_all-errs, apply_all-errs}
use bundle_controller.Sync.Store.{
  Contents, Same, denotes, IsStore, Quiet, Puts, apply_resource-Puts,
}

module _ (p : Platform) (c : Client) (options : SyncOptions) (same : Same)
    (lives fades : c.State → Contents) (store : IsStore c same lives fades) (r : ObjectReference)
    (other : (r.kind == "Namespace") ≡ false) where
  abbrev Silent : c.State → c.State → Type 0
  Silent s t = Quiet c same lives fades store r s t

  -- None of the objects is being deleted.
  abbrev pub Calm : List Unstructured → c.State → Type 0
  Calm items s = All (λ item. fades s (get_reference item) ≡ false) items

  Silent-Calm :
      (items : List Unstructured) (s t : c.State) → Silent s t → Calm items s → Calm items t
  Silent-Calm [] s t quiet calm = tt
  Silent-Calm (item ∷ items) s t quiet (now, later) =
      (quiet (get_reference item) now, Silent-Calm items s t quiet later)

  prepare_namespace-lives :
      (item : Unstructured) (s : c.State)
      → lives (prepare_namespace p c options item s) r ≡ lives s r
  unfolding prepare_namespace create_ns_if_not_exists
  prepare_namespace-lives item s = ground (arith, store.namespace-lives item.namespace s r other)

  prepare_namespace-fades :
      (item : Unstructured) (s : c.State) → Silent s (prepare_namespace p c options item s)
  unfolding prepare_namespace create_ns_if_not_exists
  prepare_namespace-fades item s k calm =
      ground (arith, store.namespace-fades item.namespace s k calm)

  -- What one step does that ends without an error, from the given cluster.
  abbrev Done : List String → c.State → Unstructured → c.State → Type 0
  Done errs before item after =
      (errs ≡ [])
      × (lives after r ≡ (same (get_reference item) r || lives before r))
      × Silent before after

  note_created-lives :
      (item : Unstructured) (before : c.State) (w : Option ApiError × Unstructured × c.State)
      (g : Progress c)
      → Puts c same lives fades store r item before w
      → (note_created p c w g).errs ≡ []
      → Done g.errs before item (note_created p c w g).cluster
  note_created-lives item before (none, answer, t) g puts fine =
      let (put, quiet) = puts refl in (fine, put, quiet)
  note_created-lives item before (some e, answer, t) g puts fine =
      absurd (append-ne-nil g.errs _ fine)

  note_applied-lives :
      (item : Unstructured) (before : c.State) (w : Option ApiError × Unstructured × c.State)
      (g : Progress c)
      → Puts c same lives fades store r item before w
      → (note_applied p c w g).errs ≡ []
      → Done g.errs before item (note_applied p c w g).cluster
  note_applied-lives item before (none, answer, t) g puts fine =
      let (put, quiet) = puts refl in (fine, put, quiet)
  note_applied-lives item before (some e, answer, t) g puts fine =
      absurd (append-ne-nil g.errs _ fine)

  -- From the cluster before its namespace was prepared.
  prepared :
      (errs : List String) (item : Unstructured) (s after : c.State)
      → Done errs (prepare_namespace p c options item s) item after
      → Done errs s item after
  prepared errs item s after (clean, put, quiet) = (
    clean,
    put ∙ rw (prepare_namespace-lives item s),
    λ k calm. quiet k (prepare_namespace-fades item s k calm),
  )

  apply_resource-put :
      (item : Unstructured) (s : c.State)
      → IsStorable c item
      → fades s (get_reference item) ≡ false
      → Puts c same lives fades store r item
          (prepare_namespace p c options item s)
          (apply_resource c item (apply_options p c options) (prepare_namespace p c options item s))
  apply_resource-put item s storable calm =
      apply_resource-Puts c same lives fades store r item (apply_options p c options) _ storable
        (prepare_namespace-fades item s (get_reference item) calm)

  create_one-lives :
      (item : Unstructured) (g : Progress c)
      → IsStorable c item
      → fades g.cluster (get_reference item) ≡ false
      → (create_one p c options item g).errs ≡ []
      → Done g.errs g.cluster item (create_one p c options item g).cluster
  unfolding create_one
  create_one-lives item g storable calm fine =
      prepared g.errs item g.cluster _
        (note_created-lives item _ _ g (apply_resource-put item g.cluster storable calm) fine)

  apply_one-lives :
      (item : Unstructured) (g : Progress c)
      → IsStorable c item
      → fades g.cluster (get_reference item) ≡ false
      → is_skiped_on item annotation_ignore_option_on_update ≡ false
      → (apply_one p c options item g).errs ≡ []
      → Done g.errs g.cluster item (apply_one p c options item g).cluster
  unfolding apply_one
  apply_one-lives item g storable calm tried fine = rw tried (
      prepared g.errs item g.cluster _ (
        note_applied-lives item _ _ _ (apply_resource-put item g.cluster storable calm)
          (rw tried at fine)))

  -- The same for a list of objects.
  abbrev AllDone : List String → c.State → List Unstructured → c.State → Type 0
  AllDone errs before items after =
      (errs ≡ [])
      × (lives after r ≡ (denotes same (references items) r || lives before r))
      × Silent before after

  create_all-lives :
      (items : List Unstructured) (g : Progress c)
      → All (IsStorable c) items
      → Calm items g.cluster
      → (create_all p c options items g).errs ≡ []
      → AllDone g.errs g.cluster items (create_all p c options items g).cluster
  unfolding create_all
  create_all-lives [] g storable calm fine = (fine, refl, λ k before. before)
  create_all-lives (item ∷ items) g (storable, ss) (calm, cs) fine =
      let step = create_one p c options item g in
      let (now, one, quiet) =
        create_one-lives item g storable calm (create_all-errs p c options items step fine) in
      let (_, all, still) =
        create_all-lives items step ss (Silent-Calm items g.cluster step.cluster quiet cs) fine in
      (now, all ∙ rw one (ground arith), λ k before. still k (quiet k before))

  apply_all-lives :
      (items : List Unstructured) (g : Progress c)
      → All (IsStorable c) items
      → Calm items g.cluster
      → All (λ item. is_skiped_on item annotation_ignore_option_on_update ≡ false) items
      → (apply_all p c options items g).errs ≡ []
      → AllDone g.errs g.cluster items (apply_all p c options items g).cluster
  unfolding apply_all
  apply_all-lives [] g storable calm tried fine = (fine, refl, λ k before. before)
  apply_all-lives (item ∷ items) g (storable, ss) (calm, cs) (tried, ts) fine =
      let step = apply_one p c options item g in
      let (now, one, quiet) =
        apply_one-lives item g storable calm tried (apply_all-errs p c options items step fine) in
      let (_, all, still) =
        apply_all-lives items step ss (Silent-Calm items g.cluster step.cluster quiet cs) ts fine in
      (now, all ∙ rw one (ground arith), λ k before. still k (quiet k before))

  note_removed-lives :
      (item : Unstructured) (g : Progress c) (w : Option ApiError × c.State)
      → c.delete item g.cluster ≡ w
      → (note_removed p c item w g).errs ≡ []
      → (g.errs ≡ [])
        × (lives (note_removed p c item w g).cluster r
            ≡ (lives g.cluster r && not (same (get_reference item) r)))
  note_removed-lives item g (none, t) deleted fine =
      (fine, store.delete-lives item g.cluster t r deleted)
  note_removed-lives item g (some e, t) deleted fine = elim (Bool-cases e.not_found) [
    | inl gone ↦ rw gone (rw gone at fine, store.absent-lives item e g.cluster t r deleted gone)
    | inr kept ↦ absurd (append-ne-nil g.errs _ (rw kept at fine))
  ]

  remove_all-lives :
      (items : List Unstructured) (g : Progress c)
      → All (λ item. is_skiped_on item annotation_ignore_option_on_delete ≡ false) items
      → (remove_all p c items g).errs ≡ []
      → (g.errs ≡ [])
        × (lives (remove_all p c items g).cluster r
            ≡ (lives g.cluster r && not (denotes same (references items) r)))
  unfolding remove_all remove_one
  remove_all-lives [] g tried fine = (fine, ground arith)
  remove_all-lives (item ∷ items) g (tried, ts) fine =
      let (later, all) = remove_all-lives items (remove_one p c item g) ts fine in
      let (now, one) =
        note_removed-lives item g (c.delete item g.cluster) refl (rw tried at later) in
      (now, all ∙ rw (tried, one) (ground arith))

  pub run_diff-lives :
      (d : DiffResult) (s : c.State)
      → All (IsStorable c) d.creats
      → All (IsStorable c) d.applys
      → Calm d.creats s
      → Calm d.applys s
      → All (λ item. is_skiped_on item annotation_ignore_option_on_update ≡ false) d.applys
      → All (λ item. is_skiped_on item annotation_ignore_option_on_delete ≡ false) d.removes
      → (run_diff p c d options s).errs ≡ []
      → lives (run_diff p c d options s).cluster r ≡ (
          (denotes same (references d.applys) r
            || (denotes same (references d.creats) r || lives s r))
          && not (denotes same (references d.removes) r))
  unfolding run_diff
  run_diff-lives d s storable_c storable_a calm_c calm_a updates deletes fine =
      let start : Progress c = record { cluster = s; managed = []; errs = [] } in
      let made = create_all p c options d.creats start in
      let (applied, removes) = remove_all-lives d.removes _ deletes fine in
      let (_, creates, quiet) =
        create_all-lives d.creats start storable_c calm_c
          (apply_all-errs p c options d.applys made applied) in
      let (_, applies, _) =
        apply_all-lives d.applys made storable_a (Silent-Calm d.applys s made.cluster quiet calm_a)
          updates applied in
      removes ∙ rw (applies, creates) refl
