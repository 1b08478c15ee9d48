-- ===== src/Posture.antt =====
-- Posture receipts and drift (demo/src/posture.js).
pub mod Receipt
pub mod Drift
pub mod Laws
mod Tests
