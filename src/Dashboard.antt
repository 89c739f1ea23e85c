-- ===== src/Dashboard.antt =====
-- The server of dashboard/api/server.py.
pub mod Cache
pub mod Stream
mod Tests
