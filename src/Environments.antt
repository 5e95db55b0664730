-- ===== src/Environments.antt =====
-- glidepath/api/internal/environments: the plan of an application's environments, promotions, and what
-- an environment can be rolled back to.
pub mod Rollback
pub mod Yaml
pub mod Plan
pub mod Runs
pub mod Source
pub mod Promote
pub mod StartRollback
mod Samples
mod Examples
mod Trials
