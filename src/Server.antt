-- ===== src/Server.antt =====
-- glidepath/api/internal/server: the HTTP API's own logic.
pub mod Paging
mod Examples
