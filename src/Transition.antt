-- ===== src/Transition.antt =====
-- The grade of a move of a target's state (demo/src/target-state-transition.js).
pub mod Attested
pub mod Grade
mod Checks
mod Shown
mod Signed
pub mod Laws
mod Tests
