-- ===== src/Reconciler.antt =====
-- pkg/controllers/bundle.go: `Reconciler/Api` is what it calls, `Reconciler/Dependencies` and
-- `Reconciler/Values` are the two steps before an apply, and `Reconciler/Loop` is `Sync` and
-- `Reconcile`. The children prove.
pub mod Api
pub mod Wire
pub mod Dependencies
pub mod Values
pub mod Loop
