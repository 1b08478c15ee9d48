-- ===== src/Http/Laws/Requests.antt =====
-- The requests that an execution sends (demo/src/http-atomic.js).
