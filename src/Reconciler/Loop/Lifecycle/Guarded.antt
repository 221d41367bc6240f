-- ===== src/Reconciler/Loop/Lifecycle/Guarded.antt =====
-- The finalizer is there before anything is recorded in the status.
use bundle_controller.Base.{
  String, true, false, Option, none, some, ◌≡◌, refl, arith, string_eq, ◌⊎◌, inl, inr, Bool-cases,
}
use mathlib.Core.Path.{subst}
use bundle_controller.Types.{Bundle}
use bundle_controller.Cluster.{Reply, reply, failed}
use bundle_controller.Outcome.{Outcome}
use bundle_controller.Applier.{BundleApplier}
use bundle_controller.Reconciler.Api.{Api, Libraries, IsLawful}
use bundle_controller.Reconciler.Loop.{
  reconcile, reconcile_bundle, reconcile_reply, sync_and_report, sync, note_failure, has_finalizer,
  is_new, is_finished, is_deleted, register, release, finalizer_name,
}
use bundle_controller.Reconciler.Loop.Lifecycle.{
  IsServer, Edit, Step, reconciled, edited, created, Reaches, here, next, is_fresh, is_held,
  is_held_or_gone, is_guarded, Edit-held, Edit-guarded, updated-state, status_written-state,
}

module _ (l : Libraries) {State : Type 0} (api : Api State) (a : BundleApplier State)
    (namespace name : String) (stored : State → Option Bundle) (laws : IsLawful l)
    (server : IsServer api namespace name stored) where
  update-stored :
      (b old : Bundle) (s : State)
      → stored s ≡ some old
      → (stored (api.update b s).1 ≡ some (record b { status = old.status }))
        ⊎ (stored (api.update b s).1 ≡ none)
        ⊎ (stored (api.update b s).1 ≡ stored s)
  update-stored b old s there = by_reply (api.update b s) refl
    where
      by_reply :
          (w : Reply Bundle × State)
          → api.update b s ≡ w
          → (stored w.1 ≡ some (record b { status = old.status }))
            ⊎ (stored w.1 ≡ none)
            ⊎ (stored w.1 ≡ stored s)
      by_reply (reply answer, t) e = elim (server.update-written b old answer s t there e) [
        | inl written ↦ inl written
        | inr (gone, _) ↦ inr (inl gone)
      ]
      by_reply (failed e, t) refused = inr (inr (server.update-refused b e s t refused))

  register-guarded :
      (b : Bundle) (s : State)
      → stored s ≡ some b
      → is_guarded l (stored s) ≡ true
      → is_guarded l (stored (api.update (register l b) s).1) ≡ true
  register-guarded b s there guarded = elim (update-stored (register l b) b s there) [
    | inl written ↦ rw written (ground (arith, laws.contains-add b.finalizers finalizer_name))
    | inr (inl gone) ↦ rw gone refl
    | inr (inr same) ↦ rw same guarded
  ]

  release-guarded :
      (b : Bundle) (s : State)
      → stored s ≡ some b
      → is_deleted b ≡ true
      → is_guarded l (stored s) ≡ true
      → is_guarded l (stored (api.update (release l b) s).1) ≡ true
  release-guarded b s there deleted guarded = elim (update-stored (release l b) b s there) [
    | inl written ↦ rw written (ground arith)
    | inr (inl gone) ↦ rw gone refl
    | inr (inr same) ↦ rw same guarded
  ]

  status-guarded :
      (b : Bundle) (s : State) (o : Option Bundle)
      → stored s ≡ o
      → is_held_or_gone l o ≡ true
      → is_guarded l (stored (api.update_status b s).1) ≡ true
  status-guarded b s none gone held = rw (server.update_status-none b s gone) refl
  status-guarded b s (some old) there held = elim (server.update_status-stored b old s there) [
    | inl written ↦ rw written (ground arith)
    | inr same ↦ rw (same, there) (ground arith)
  ]

  sync-guarded :
      (b : Bundle) (s : State)
      → stored s ≡ some b
      → is_held l b ≡ true
      → Edit l (some b) (stored (sync l api a b s).state)
      → is_guarded l (stored (sync_and_report l api a b s).1) ≡ true
  unfolding sync_and_report
  sync-guarded b s there held edit =
      let o : Outcome State = sync l api a b s in
      rw (status_written-state o.failure (api.update_status (note_failure o) o.state)) (
        status-guarded (note_failure o) o.state (stored o.state) refl
          (Edit-held l (some b) (stored o.state) edit held))

  reconcile_bundle-guarded :
      (b : Bundle) (s : State)
      → stored s ≡ some b
      → is_guarded l (stored s) ≡ true
      → Edit l (some b) (stored (sync l api a b s).state)
      → is_guarded l (stored (reconcile_bundle l api a b s).1) ≡ true
  unfolding reconcile_bundle
  reconcile_bundle-guarded b s there guarded edit = elim (Bool-cases (is_new l b)) [
    | inl new ↦
        rw (new, updated-state true (api.update (register l b) s))
          (register-guarded b s there guarded)
    | inr old ↦ elim (Bool-cases (is_finished l b)) [
      | inl finished ↦
          rw (old, finished, updated-state false (api.update (release l b) s))
            (release-guarded b s there (ground arith) guarded)
      | inr unfinished ↦ rw (old, unfinished) (sync-guarded b s there (ground arith) edit)
    ]
  ]

  reconcile-guarded :
      (s : State)
      → ((b : Bundle) → stored s ≡ some b → Edit l (some b) (stored (sync l api a b s).state))
      → is_guarded l (stored s) ≡ true
      → is_guarded l (stored (reconcile l api a namespace name s).1) ≡ true
  unfolding reconcile
  reconcile-guarded s edits guarded = by_read (api.get_bundle namespace name s) refl
    where
      by_read :
          (read : Reply Bundle)
          → api.get_bundle namespace name s ≡ read
          → is_guarded l (stored (reconcile_reply l api a read s).1) ≡ true
      by_read (reply b) found =
          let there = server.get-stored b s found in
          reconcile_bundle-guarded b s there guarded (edits b there)
      by_read (failed e) found = elim (Bool-cases e.not_found) [
        | inl missing ↦ rw missing guarded
        | inr broken ↦ rw broken guarded
      ]

  step-guarded :
      {s t : State}
      → Step l api a namespace name stored s t
      → is_guarded l (stored s) ≡ true
      → is_guarded l (stored t) ≡ true
  step-guarded (reconciled s edits) guarded = reconcile-guarded s edits guarded
  step-guarded (edited s t edit) guarded = Edit-guarded l (stored s) (stored t) edit guarded
  step-guarded (created s t b absent there fresh) guarded = rw there (ground arith)

  Reaches-guarded :
      {s t : State}
      → Reaches l api a namespace name stored s t
      → is_guarded l (stored s) ≡ true
      → is_guarded l (stored t) ≡ true
  Reaches-guarded here guarded = guarded
  Reaches-guarded (next before step) guarded = step-guarded step (Reaches-guarded before guarded)

  -- Whatever happens to a bundle from before it is created, in any order of calls of `Reconcile`,
  -- changes of its spec and deletions, also during a synchronisation: as soon as its status
  -- records a phase or a resource, the bundle has the finalizer, unless it is being deleted. The
  -- libraries and the server do what they document; a bundle is created with an empty status,
  -- and others leave its status and its finalizers alone.
  pub Reaches-has_finalizer :
      (s t : State) (b : Bundle)
      → stored s ≡ none
      → Reaches l api a namespace name stored s t
      → stored t ≡ some b
      → is_deleted b ≡ false
      → is_fresh b ≡ false
      → has_finalizer l b ≡ true
  Reaches-has_finalizer s t b absent reaches there present recorded =
      let guarded : is_guarded l (some b) ≡ true =
        subst (λ (o : Option Bundle). is_guarded l o ≡ true) there
          (Reaches-guarded reaches (rw absent refl)) in
      ground arith
