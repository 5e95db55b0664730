-- ===== src/Dora.antt =====
-- glidepath/dora-exporter: the DORA metrics of the releases.
pub mod Exporter
pub mod Paths
mod Samples
mod Examples
