-- ===== src/Environments/Trials.antt =====
-- Promotions and rollbacks of the application `shop`.
use glidepath.Prelude.{◌≡◌, refl, true, false, [], some, none, String}
use glidepath.Prelude.Text.{concat, split, strip_prefix, has_prefix}
use glidepath.Prelude.Text.Classes.{every, size}
use glidepath.Prelude.Dict.{lookup, insert}
use glidepath.Environments.Yaml.{entry_at, map_get, unmarshal, has_duplicate}
use glidepath.Environments.Plan.{ReleasePlan, declared_in, plan_of, is_lower, index_in}
use glidepath.Environments.Plan.Order.{IsOrder, plan_of-order}
use glidepath.Environments.Plan.Steps.{listed}
use glidepath.Environments.Runs.{
  is_word, is_env_name, repos_of, front, extract_short_sha, run_name, gives, Started, PipelineRun,
  start_run,
}
use glidepath.Environments.Runs.Replay.{IsServing, start_run-replay}
use glidepath.Environments.Source.{resolve_source}
use glidepath.Environments.Promote.{
  pipeline, validate, check_order, fetch_plan, plan_promotion, promote,
}
use glidepath.Environments.Promote.Next.{IsNext, promote-IsNext}
use glidepath.Environments.Rollback.{target_of}
use glidepath.Environments.StartRollback.{RollbackResult, run_started}
use glidepath.Environments.Samples.{
  release, shop_config, shop_scalars, shop_libraries, shop_github, shop, shop_server, to_live,
  shop_run, key,
}

plan_of-order_example :
    let p = plan_of shop_scalars shop_config in
    let environments = map_get "environments" (map_get "deploy" (some shop_config)) in
    IsOrder (listed environments) (map_get "pipelines" (some shop_config)) p.from_steps p.order
plan_of-order_example = plan_of-order shop_scalars shop_config

abbrev shop_started : Started
shop_started = record { name = "promote-live-abcdef12-012345"; replayed = false; object = none }

shop_starts : (start_run shop_server shop_run key false []).1 ≡ gives shop_started
unfolding start_run run_name front concat lookup
shop_starts = refl

shop_serves : IsServing shop_server shop_run key
shop_serves = record {
  fill = λ params. some "promote-release";
  body = "promote-release";
  has_template = refl;
  is_filled = refl;
  creates = refl;
  rereads = refl;
}

start_run-replay_example :
    let after = (start_run shop_server shop_run key false []).0 in
    ((n : String) (x : PipelineRun) → lookup n [] ≡ some x → lookup n after ≡ some x)
    × (start_run shop_server shop_run key false after ≡ (
      after,
      gives (record { name = "promote-live-abcdef12-012345"; replayed = true; object = none }),
    ))
start_run-replay_example =
    start_run-replay shop_server shop_server shop_run key [] shop_started shop_starts shop_serves

shop_promotes :
    (promote shop_libraries shop_github shop shop_server "live" to_live "ann" key false []).1
    ≡ gives (pipeline shop_started)
unfolding promote plan_promotion validate is_env_name has_duplicate is_word every size fetch_plan
    unmarshal plan_of declared_in entry_at is_lower index_in check_order resolve_source repos_of
    strip_prefix has_prefix extract_short_sha split concat front run_name start_run lookup insert
shop_promotes = refl

promote-IsNext_example :
    (is_env_name "live" ≡ true)
    × (validate to_live ≡ true)
    × (p : ReleasePlan) × (fetch_plan shop_libraries shop_github shop ≡ gives p)
    × IsNext shop_libraries.fold p "staging" "live"
promote-IsNext_example =
    promote-IsNext shop_libraries shop_github shop shop_server "live" to_live "ann" key false []
      (pipeline shop_started) shop_promotes

abbrev r1_started : RollbackResult
r1_started =
    run_started (record { name = "rollback-live-abcdef12-012345"; replayed = false; object = none })
      (target_of (release "r1" "superseded" "|")) (some "r2")
