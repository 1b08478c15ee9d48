-- ===== src/Reconcile.antt =====
-- Reconciliation after a crash, over the three adapters (demo/src/reconcile.js).
pub mod Report
pub mod Keyring
pub mod Stored
pub mod Readers
pub mod Rollup
pub mod Laws
pub mod Samples
mod Tests
mod ExecutedTests
