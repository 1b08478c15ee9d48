-- ===== src/Git.antt =====
-- The git adapter: one grant moves one ref, once (demo/src/git-atomic.js, demo/src/ledger-hook.js).
pub mod Repo
pub mod Execute
pub mod Retention
pub mod Hook
pub mod Reconcile
pub mod Laws
mod Tests
