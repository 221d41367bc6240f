-- ===== src/Reconciler/Loop/Lifecycle.antt =====
-- What can happen to one bundle: calls of `Reconcile`, and changes by others between and during them.
pub mod Guarded
pub mod Requeue
use bundle_controller.Base.{
  String, ℕ, Bool, is_empty, true, false, not, ◌&&◌, ◌||◌, Option, none, some, ◌≡◌, refl, ◌∙◌, sym,
  ap, arith, ◌==◌, string_eq, ◌⊎◌, inl, inr, Bool-cases, Option-cases,
}
use mathlib.Core.Path.{subst}
use bundle_controller.Types.{Bundle, BundleSpec}
use bundle_controller.Cluster.{ApiError, Reply, reply, failed}
use bundle_controller.Outcome.{Outcome}
use bundle_controller.Applier.{BundleApplier}
use bundle_controller.Reconciler.Api.{Api, Libraries, IsLawful}
use bundle_controller.Reconciler.Loop.{
  Reconciled, reconcile, reconcile_bundle, reconcile_reply, sync_and_report, sync, note_failure,
  has_finalizer, is_new, is_finished, is_deleted, status_written, updated, register, release,
  finalizer_name,
}

-- What the server keeps of one bundle, which may not exist. `update` writes all but the status, and a
-- bundle that is left without what holds it may be gone; `update_status` writes the status alone; a
-- write that is refused changes nothing.
pub record IsServer {State : Type 0} (api : Api State) (namespace name : String)
    (stored : State → Option Bundle) : Type 0 where
  pub get-stored :
      (b : Bundle) (s : State) → api.get_bundle namespace name s ≡ reply b → stored s ≡ some b
  pub update-written :
      (b old answer : Bundle) (s t : State)
      → stored s ≡ some old
      → api.update b s ≡ (reply answer, t)
      → (stored t ≡ some (record b { status = old.status }))
        ⊎ ((stored t ≡ none) × (is_deleted b ≡ true))
  pub update-refused :
      (b : Bundle) (e : ApiError) (s t : State)
      → api.update b s ≡ (failed e, t)
      → stored t ≡ stored s
  pub update_status-stored :
      (b old : Bundle) (s : State)
      → stored s ≡ some old
      → (stored (api.update_status b s).1 ≡ some (record old { status = b.status }))
        ⊎ (stored (api.update_status b s).1 ≡ stored s)
  pub update_status-none :
      (b : Bundle) (s : State) → stored s ≡ none → stored (api.update_status b s).1 ≡ none

-- Nothing was recorded in the status.
abbrev pub is_fresh : Bundle → Bool
is_fresh b = b.status.phase == "" && is_empty b.status.resources

module _ {State : Type 0} where
  pub updated-state : (requeue : Bool) (w : Reply Bundle × State) → (updated requeue w).1 ≡ w.1
  updated-state requeue (failed e, s) = refl
  updated-state requeue (reply answer, s) = refl

  pub status_written-state :
      (failure : Option String) (w : Reply Bundle × State) → (status_written failure w).1 ≡ w.1
  status_written-state failure (failed e, s) = refl
  status_written-state failure (reply answer, s) = refl

module _ (l : Libraries) where
  -- A bundle that is there is held by the finalizer, or is being deleted.
  abbrev pub is_held : Bundle → Bool
  is_held b = is_deleted b || has_finalizer l b

  abbrev pub is_held_or_gone : Option Bundle → Bool
  is_held_or_gone none = true
  is_held_or_gone (some b) = is_held b

  -- A bundle that is not held has no status yet.
  abbrev pub is_guarded : Option Bundle → Bool
  is_guarded none = true
  is_guarded (some b) = is_fresh b || is_held b

  -- What others do to the stored bundle: nothing, a change of its spec, its deletion, which is put
  -- off as long as the finalizer is there, or several of these one after the other.
  pub data Edit : Option Bundle → Option Bundle → Type 0 where
    untouched : (o : Option Bundle) → Edit o o
    changed : (b : Bundle) (spec : BundleSpec) → Edit (some b) (some (record b { spec = spec }))
    marked :
        (b : Bundle) (time : ℕ) → Edit (some b) (some (record b { deletion_timestamp = some time }))
    vanished : (b : Bundle) → has_finalizer l b ≡ false → Edit (some b) none
    both : (o p q : Option Bundle) → Edit o p → Edit p q → Edit o q

  pub Edit-held :
      (o q : Option Bundle) → Edit o q → is_held_or_gone o ≡ true → is_held_or_gone q ≡ true
  Edit-held _ _ (untouched o) held = held
  Edit-held _ _ (changed b spec) held = held
  Edit-held _ _ (marked b time) held = refl
  Edit-held _ _ (vanished b free) held = refl
  Edit-held _ _ (both o p q e f) held = Edit-held p q f (Edit-held o p e held)

  pub Edit-guarded : (o q : Option Bundle) → Edit o q → is_guarded o ≡ true → is_guarded q ≡ true
  Edit-guarded _ _ (untouched o) held = held
  Edit-guarded _ _ (changed b spec) held = held
  Edit-guarded _ _ (marked b time) held = ground arith
  Edit-guarded _ _ (vanished b free) held = refl
  Edit-guarded _ _ (both o p q e f) held = Edit-guarded p q f (Edit-guarded o p e held)

  module _ {State : Type 0} (api : Api State) (a : BundleApplier State) (namespace name : String)
      (stored : State → Option Bundle) where
    -- One thing that happens. While a call synchronises, others may change the bundle too.
    pub data Step : State → State → Type 0 where
      reconciled :
          (s : State)
          → ((b : Bundle) → stored s ≡ some b → Edit (some b) (stored (sync l api a b s).state))
          → Step s (reconcile l api a namespace name s).1
      edited : (s t : State) → Edit (stored s) (stored t) → Step s t
      created :
          (s t : State) (b : Bundle)
          → stored s ≡ none
          → stored t ≡ some b
          → is_fresh b ≡ true
          → Step s t

    pub data Reaches (s : State) : State → Type 0 where
      here : Reaches s s
      next : {t u : State} → Reaches s t → Step t u → Reaches s u
