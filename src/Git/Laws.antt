-- ===== src/Git/Laws.antt =====
-- What an execution does to the repository.
pub mod Moves
pub mod OneUse
pub mod Reclaim
pub mod Pushes
