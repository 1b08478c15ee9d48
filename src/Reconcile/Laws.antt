-- ===== src/Reconcile/Laws.antt =====
-- What a reconciliation guarantees (demo/src/reconcile.js).
pub mod Keys
pub mod Proven
pub mod Entries
pub mod Confirmed
pub mod Headline
pub mod Counts
pub mod Target
pub mod Sealed
pub mod Executed
