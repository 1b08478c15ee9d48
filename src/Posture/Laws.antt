-- ===== src/Posture/Laws.antt =====
-- What posture receipts and drift say (demo/src/posture.js).
pub mod Passed
pub mod Leaf
pub mod Drifted
