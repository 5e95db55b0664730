-- ===== src/Results.antt =====
-- glidepath/api/internal/results: reads of Tekton Results.
pub mod Cache
mod Examples
