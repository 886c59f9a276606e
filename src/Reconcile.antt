-- ===== src/Reconcile.antt =====
-- internal/reconcile: the predictions against what is observed.
pub mod Events
pub mod Scan
pub mod Kept
pub mod Invariants
pub mod Done
mod Tests
