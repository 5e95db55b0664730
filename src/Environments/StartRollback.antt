-- ===== src/Environments/StartRollback.antt =====
-- glidepath/api/internal/environments/rollback.go, `Rollback`: the start of a rollback.
pub mod Eligible
use glidepath.Prelude.{
  ℕ, String, Bool, true, false, ◌||◌, not, List, [], ◌∷◌, Option, some, none, ◌==◌, ltb,
  if◌then◌else◌,
}
use glidepath.Prelude.Text.{concat}
use glidepath.Prelude.Text.Classes.{bytes}
use glidepath.Environments.Rollback.{Record, Current, Target, RollbackPlan, plan_rollback}
use glidepath.Environments.Runs.{
  Failure, Answer, fails, gives, and_then, invalid, refused, broken, is_env_name, repos_of, short,
  ReleaseRun, Started, ApiServer, Runs, start_run,
}
use glidepath.Environments.Source.{GitHub, App}

-- `RollbackRequest`.
pub record RollbackRequest : Type 0 where
  pub cluster : String
  pub target_release_id : String
  pub reason : String

-- `RollbackResult`: with a pull request that is open, or with a run; and what it replaces.
pub data RollbackResult : Type 0 where
  already_open : String → Target → Option String → RollbackResult
  run_started : Started → Target → Option String → RollbackResult

-- The target of the request, if it is one of the plan's.
unfoldable pub find_target : String → List Target → Option Target
find_target id [] = none
find_target id (t ∷ ts) =
    let later = find_target id ts in if t.release_id == id then some t else later

abbrev or_empty : Option String → String
or_empty none = ""
or_empty (some s) = s

-- The checks of the request, its reason trimmed.
unfoldable pub is_rollback_request : RollbackRequest → String → Bool
is_rollback_request req reason = not (
    ((req.cluster == "") || ((req.target_release_id == "") || (reason == "")))
    || (ltb 1024 (bytes reason) || ltb 256 (bytes req.target_release_id)))

abbrev pub chosen : String → Option Target → Answer Target
chosen id none = fails refused
chosen id (some t) = gives t

-- The target of a plan, with what it replaces.
abbrev pub target_in : String → Option Current → List Target → Answer (Target × Option String)
target_in id none targets = fails refused
target_in id (some cur) targets =
    and_then (chosen id (find_target id targets)) (λ t. gives (t, cur.release_id))

abbrev pub rollback_run : String → String → String → String → Target → Option String → ReleaseRun
rollback_run env cluster reason initiator t replaces = record {
  env = env;
  cluster = cluster;
  git_url = t.git_url;
  git_revision = t.git_revision;
  image_ref = t.image;
  initiator = initiator;
  rollback = some (record { of = or_empty replaces; reason = reason; config_revision = "main" });
}

abbrev pub result_of : Target → Option String → Answer Started → Answer RollbackResult
result_of t replaces (fails e) = fails e
result_of t replaces (gives s) = gives (run_started s t replaces)

-- The end of `Rollback`: the pull request that is open already, or a run.
abbrev pub roll_unless_open :
    ApiServer
    → ReleaseRun
    → String
    → Bool
    → Runs
    → Target
    → Option String
    → Option String
    → Runs × Answer RollbackResult
roll_unless_open api run key_hash dry runs t replaces none = (runs, fails broken)
roll_unless_open api run key_hash dry runs t replaces (some url) =
    if url == ""
    then (let (after, s) = start_run api run key_hash dry runs in (after, result_of t replaces s))
    else (runs, gives (already_open url t replaces))

-- `RollbackPlan`, from the release records, none if they cannot be listed. `parse` is that of RFC 3339.
abbrev pub records_of : Option (List Record) → Answer (List Record)
records_of none = fails broken
records_of (some rs) = gives rs

unfoldable pub rollback_plan :
    (String → Option ℕ) → Option (List Record) → String → String → Answer RollbackPlan
rollback_plan parse recs env cluster =
    if not (is_env_name env) || not (is_env_name cluster)
    then fails invalid
    else and_then (records_of recs) (λ rs. gives (plan_rollback parse rs))

-- What a rollback goes to and what it replaces, from the checks and the plan. `trim` is
-- `strings.TrimSpace`.
unfoldable pub rollback_target :
    (String → String)
    → (String → Option ℕ)
    → Option (List Record)
    → String
    → RollbackRequest
    → Answer (Target × Option String)
rollback_target trim parse recs env req =
    if not (is_rollback_request req (trim req.reason))
    then fails invalid
    else and_then (rollback_plan parse recs env req.cluster)
        (λ p. target_in req.target_release_id p.current p.targets)

module _ (gh : GitHub) (app : App) (api : ApiServer) where
  abbrev pub roll_to :
      String
      → String
      → String
      → String
      → String
      → Bool
      → Runs
      → Answer (Target × Option String)
      → Runs × Answer RollbackResult
  roll_to env cluster reason initiator key_hash dry runs (fails e) = (runs, fails e)
  roll_to env cluster reason initiator key_hash dry runs (gives (t, replaces)) =
      roll_unless_open api (rollback_run env cluster reason initiator t replaces) key_hash dry runs
        t replaces
        (gh.open_pr (repos_of app.namespace app.name).gitops
          (concat ("release-rollback-" ∷ env ∷ "-" ∷ short t.git_revision ∷ [])))

  -- `Rollback`.
  unfoldable pub rollback :
      (String → String)
      → (String → Option ℕ)
      → Option (List Record)
      → String
      → RollbackRequest
      → String
      → String
      → Bool
      → Runs
      → Runs × Answer RollbackResult
  rollback trim parse recs env req initiator key_hash dry runs =
      roll_to env req.cluster (trim req.reason) initiator key_hash dry runs
        (rollback_target trim parse recs env req)
