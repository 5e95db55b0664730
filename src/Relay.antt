-- ===== src/Relay.antt =====
-- glidepath/broker/cmd/glidepath-relay: facts from the upper clusters, joined to the release records.
pub mod Reducer
pub mod Record
pub mod Apply
pub mod Siblings
pub mod Handler
pub mod Argo
mod Samples
mod Examples
