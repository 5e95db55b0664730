-- ===== src/Events.antt =====
-- glidepath/api/internal/events: the CDEvents stream of one replica.
pub mod Store
mod Examples
