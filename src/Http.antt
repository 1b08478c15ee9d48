-- ===== src/Http.antt =====
-- The adapter for an HTTP resource (demo/src/http-atomic.js). `fetch` and the origin behind it are
-- a parameter.
pub mod Request
pub mod Canary
pub mod Execute
pub mod Laws
mod Tests
