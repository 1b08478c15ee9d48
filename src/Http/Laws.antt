-- ===== src/Http/Laws.antt =====
-- What the HTTP adapter guarantees (demo/src/http-atomic.js).
pub mod Reads
pub mod Trace
pub mod Requests
pub mod Swap
pub mod Probe
pub mod Tag
pub mod Evidence
