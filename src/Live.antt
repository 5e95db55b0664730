-- ===== src/Live.antt =====
-- glidepath/api/internal/live: an application's runs, pushed to its viewers.
pub mod Stream
mod Examples
