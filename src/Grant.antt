-- ===== src/Grant.antt =====
-- Offline verification of execution grants (packages/middleware/src/verify-grant.js).
pub mod Verdict
pub mod Options
pub mod Token
pub mod Profile
pub mod V1
pub mod V2
pub mod AnyVersion
mod Tests
