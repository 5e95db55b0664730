-- ===== src/Environments/StartRollback/Eligible.antt =====
-- A rollback of environments/rollback.go goes to a release that the plan offers.
use glidepath.Prelude.{String, Option, some, none}
use glidepath.Environments.Rollback.{Target}
use glidepath.Environments.Runs.{Answer, fails, gives, Runs}
use glidepath.Environments.StartRollback.{RollbackResult, already_open, run_started}

abbrev or_target : Target → Option Target → Target
or_target t none = t
or_target t (some u) = u

abbrev pub target_at : RollbackResult → Target
target_at (already_open url t replaces) = t
target_at (run_started s t replaces) = t

abbrev pub replaced_at : RollbackResult → Option String
replaced_at (already_open url t replaces) = replaces
replaced_at (run_started s t replaces) = replaces

abbrev answer_of : Answer RollbackResult → Answer (Target × Option String)
answer_of (fails e) = fails e
answer_of (gives r) = gives (target_at r, replaced_at r)

abbrev answer_or : {A : Type 0} → A → Answer A → A
answer_or d (fails e) = d
answer_or d (gives a) = a
