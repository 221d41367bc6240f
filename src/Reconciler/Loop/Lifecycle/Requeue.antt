-- ===== src/Reconciler/Loop/Lifecycle/Requeue.antt =====
-- A call that asks to be called again.
use bundle_controller.Base.{
  String, true, false, Option, some, ◌≡◌, refl, arith, string_eq, inl, inr, Bool-cases,
}
use mathlib.Core.Path.{subst}
use bundle_controller.Types.{Bundle}
use bundle_controller.Cluster.{Reply, reply, failed}
use bundle_controller.Applier.{BundleApplier}
use bundle_controller.Reconciler.Api.{Api, Libraries, IsLawful}
use bundle_controller.Reconciler.Loop.{
  reconcile, reconcile_bundle, reconcile_reply, sync_and_report, is_new, updated, register,
  finalizer_name,
}
use bundle_controller.Reconciler.Loop.Lifecycle.{
  IsServer, Edit, is_held, is_held_or_gone, Edit-held, updated-state,
}

module _ (l : Libraries) {State : Type 0} (api : Api State) (a : BundleApplier State)
    (namespace name : String) (stored : State → Option Bundle) (laws : IsLawful l)
    (server : IsServer api namespace name stored) where
  updated-requeue :
      (w : Reply Bundle × State)
      → (updated true w).0.requeue ≡ true
      → (answer : Bundle) × (w ≡ (reply answer, w.1))
  updated-requeue (reply answer, t) again = (answer, refl)
  updated-requeue (failed e, t) again = cc

  -- A call that does not register asks for no other.
  reconcile_bundle-held :
      (b : Bundle) (s : State)
      → is_held l b ≡ true
      → (reconcile_bundle l api a b s).0.requeue ≡ false
  unfolding reconcile_bundle sync_and_report
  reconcile_bundle-held b s held = ground arith

  reconcile-held :
      (s : State)
      → is_held_or_gone l (stored s) ≡ true
      → (reconcile l api a namespace name s).0.requeue ≡ false
  unfolding reconcile
  reconcile-held s held = by_read (api.get_bundle namespace name s) refl
    where
      by_read :
          (read : Reply Bundle)
          → api.get_bundle namespace name s ≡ read
          → (reconcile_reply l api a read s).0.requeue ≡ false
      by_read (reply b) found = reconcile_bundle-held b s (
          subst (λ (o : Option Bundle). is_held_or_gone l o ≡ true) (server.get-stored b s found)
            held)
      by_read (failed e) found = ground arith

  register-held :
      (b : Bundle) (s : State)
      → stored s ≡ some b
      → is_new l b ≡ true
      → (updated true (api.update (register l b) s)).0.requeue ≡ true
      → is_held_or_gone l (stored (updated true (api.update (register l b) s)).1) ≡ true
  register-held b s there new again =
      let w = api.update (register l b) s in
      let (answer, taken) = updated-requeue w again in
      rw (updated-state true w)
        (elim (server.update-written (register l b) b answer s w.1 there taken) [
          | inl written ↦ rw written (ground (arith, laws.contains-add b.finalizers finalizer_name))
          | inr (gone, deleted) ↦ rw gone refl
        ])

  requeued-held :
      (s : State)
      → (reconcile l api a namespace name s).0.requeue ≡ true
      → is_held_or_gone l (stored (reconcile l api a namespace name s).1) ≡ true
  unfolding reconcile reconcile_bundle
  requeued-held s again = by_read (api.get_bundle namespace name s) refl again
    where
      by_read :
          (read : Reply Bundle)
          → api.get_bundle namespace name s ≡ read
          → (reconcile_reply l api a read s).0.requeue ≡ true
          → is_held_or_gone l (stored (reconcile_reply l api a read s).1) ≡ true
      by_read (failed e) found requeued = absurd (ground arith)
      by_read (reply b) found requeued = elim (Bool-cases (is_new l b)) [
        | inl new ↦
            rw new (register-held b s (server.get-stored b s found) new (rw new at requeued))
        | inr old ↦ absurd (ground (arith, reconcile_bundle-held b s))
      ]

  -- The requeueing ends: a call that asks to be called again is followed by one that does not, also
  -- where others change the spec of the bundle or delete it between the two. The libraries and the
  -- server do what they document.
  pub reconcile-requeue_once :
      (s t : State)
      → (reconcile l api a namespace name s).0.requeue ≡ true
      → Edit l (stored (reconcile l api a namespace name s).1) (stored t)
      → (reconcile l api a namespace name t).0.requeue ≡ false
  reconcile-requeue_once s t again edit = reconcile-held t (
      Edit-held l (stored (reconcile l api a namespace name s).1) (stored t) edit
        (requeued-held s again))
