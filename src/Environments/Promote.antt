-- ===== src/Environments/Promote.antt =====
-- glidepath/api/internal/environments/promote.go: the checks of a promotion, and the run that
-- it starts.
pub mod Next
use glidepath.Prelude.{
  ℕ, suc, String, Bool, true, false, ◌&&◌, ◌||◌, not, List, [], ◌∷◌, Option, some, none, ◌==◌, eqb,
  if◌then◌else◌,
}
use glidepath.Prelude.Text.{concat}
use glidepath.Environments.Yaml.{Node, empty, Scalars, map_get, scalar, text_of, unmarshal}
use glidepath.Environments.Plan.{ReleasePlan, plan_of, is_lower, index_in}
use glidepath.Environments.Runs.{
  Failure, Answer, fails, gives, and_then, invalid, refused, broken, is_env_name, is_image_repo,
  is_image_tag, Repos, repos_of, short, extract_short_sha, ReleaseRun, Started, ApiServer, Runs,
  start_run,
}
use glidepath.Environments.Source.{
  Libraries, ConfigRead, text, no_file, no_answer, GitHub, App, PromoteRequest, both, Source, repos,
  resolve_source,
}

abbrev same_bool : Bool → Bool → Bool
same_bool true b = b
same_bool false b = not b

-- `Validate`.
unfoldable pub validate : PromoteRequest → Bool
validate r =
    let has_env = both r.source_cluster r.source_env in
    let has_image = both r.source_image_repo r.source_image_tag in
    if (r.cluster == "") || same_bool has_env has_image
    then false
    else if not (is_env_name r.cluster)
        || (has_env && (not (is_env_name r.source_env) || not (is_env_name r.source_cluster)))
    then false
    else not (
        has_image
        && (not (is_image_repo r.source_image_repo) || not (is_image_tag r.source_image_tag)))

-- The order check: whether the target is the stage after the source, whose places are given.
abbrev pub is_next : Option ℕ → Option ℕ → Bool
is_next none t = false
is_next (some i) none = false
is_next (some i) (some j) = eqb j (suc i)

abbrev pub is_first : (String → String → Bool) → List String → String → Bool
is_first fold [] env = false
is_first fold (e ∷ es) env = fold e env

-- The checks of `Promote` on the plan; the answer is whether the source is a Ground environment.
unfoldable pub check_order : (String → String → Bool) → ReleasePlan → String → String → Answer Bool
check_order fold p source target =
    let in_order =
      if source == ""
      then is_first fold p.order target
      else is_next (index_in fold p.order source) (index_in fold p.order target) in
    if not in_order
    then fails refused
    else if is_lower fold p target
    then fails refused
    else gives (not (source == "") && is_lower fold p source)

-- A branch's open pull request, or none.
pub data Promotion : Type 0 where
  opened : String → Promotion
  starts : ReleaseRun → Promotion

module _ (lib : Libraries) (gh : GitHub) (app : App) where
  -- `fetchPlan`.
  abbrev planned : Option Node → Answer ReleasePlan
  planned none = fails broken
  planned (some doc) = gives (plan_of lib.scalars doc)

  abbrev planned_from : ConfigRead → Answer ReleasePlan
  planned_from (text raw) = planned (unmarshal lib.parse raw)
  planned_from no_file = planned (unmarshal lib.parse "")
  planned_from no_answer = fails broken

  unfoldable pub fetch_plan : Answer ReleasePlan
  fetch_plan = planned_from (gh.raw (repos_of app.namespace app.name).config)

  abbrev pub run_of : String → PromoteRequest → String → Source → ReleaseRun
  run_of target req initiator src = record {
    env = target;
    cluster = req.cluster;
    git_url = src.git_url;
    git_revision = src.git_revision;
    image_ref = concat (src.image_repo ∷ ":" ∷ src.image_tag ∷ []);
    initiator = initiator;
    rollback = none;
  }

  abbrev pub branch_of : String → Source → String
  branch_of target src = concat ("release-" ∷ target ∷ "-" ∷ short src.git_revision ∷ [])

  -- The end of `Promote` before its run: the pull request that is open already, or the run.
  abbrev pub unless_open : ReleaseRun → Option String → Answer Promotion
  unless_open run none = fails broken
  unless_open run (some url) = if url == "" then gives (starts run) else gives (opened url)

  abbrev pub from_source : String → PromoteRequest → String → Source → Answer Promotion
  from_source target req initiator src =
      unless_open (run_of target req initiator src)
        (gh.open_pr (repos_of app.namespace app.name).gitops (branch_of target src))

  abbrev pub from_plan : String → PromoteRequest → String → ReleasePlan → Answer Promotion
  from_plan target req initiator p =
      and_then (check_order lib.fold p req.source_env target)
        (λ lower. and_then (resolve_source lib gh app req lower) (from_source target req initiator))

  unfoldable pub plan_promotion : String → PromoteRequest → String → Answer Promotion
  plan_promotion target req initiator =
      if not (is_env_name target)
      then fails invalid
      else if not (validate req)
      then fails invalid
      else and_then fetch_plan (from_plan target req initiator)

-- `PromoteResult`: an open pull request, or a run.
pub data PromoteResult : Type 0 where
  pr : String → PromoteResult
  pipeline : Started → PromoteResult

abbrev pub pipeline_of : Answer Started → Answer PromoteResult
pipeline_of (fails e) = fails e
pipeline_of (gives s) = gives (pipeline s)

abbrev pub carry_out :
    ApiServer → String → Bool → Runs → Answer Promotion → Runs × Answer PromoteResult
carry_out api key_hash dry runs (fails e) = (runs, fails e)
carry_out api key_hash dry runs (gives (opened url)) = (runs, gives (pr url))
carry_out api key_hash dry runs (gives (starts run)) =
    let (after, s) = start_run api run key_hash dry runs in (after, pipeline_of s)

-- `Promote`.
unfoldable pub promote :
    Libraries
    → GitHub
    → App
    → ApiServer
    → String
    → PromoteRequest
    → String
    → String
    → Bool
    → Runs
    → Runs × Answer PromoteResult
promote lib gh app api target req initiator key_hash dry runs =
    carry_out api key_hash dry runs (plan_promotion lib gh app target req initiator)
