-- ===== src/Dora/Paths.antt =====
-- dora-exporter/main.go: the two paths on which the outcome of a release arrives, the requests to
-- /argocd-outcome and the events of Applications.
pub mod Restart
pub mod Patch
pub mod Pending
use glidepath.Prelude.{
  ℕ, ◌+◌, suc, ◌≡◌, String, Bool, true, false, ◌&&◌, ◌||◌, not, List, [], ◌∷◌, ◌++◌, Option, some,
  none, ◌==◌, leb, if◌then◌else◌,
}
use glidepath.Prelude.Text.{Cut, found, missing, cut, concat}
use glidepath.Prelude.Dict.{Dict, lookup, insert, text_at, remove}
use glidepath.Dora.Exporter.{
  Formats, Exporter, Answers, is_terminal_phase, app_state_key, parse_time, patch_key,
  record_release,
}

-- `argocdOutcomeRequest`.
pub record OutcomeRequest : Type 0 where
  pub app_namespace : String
  pub app_name : String
  pub phase : String
  pub finished_at : String
  pub flow_start_time : String

-- An Argo CD Application: its annotations, and `status.operationState`.
pub record Application : Type 0 where
  pub annotations : Dict String
  pub phase : String
  pub started_at : String
  pub finished_at : String

-- The annotations after the patch of `reconcile`.
abbrev pub patched : Option (Option String) → Dict String → Dict String
patched none a = remove "hangar.io/dora-pending" a
patched (some none) a =
    remove "hangar.io/dora-last-failure-time" (remove "hangar.io/dora-pending" a)
patched (some (some t)) a =
    insert "hangar.io/dora-last-failure-time" t (remove "hangar.io/dora-pending" a)

-- The baseline check: a sync that started by then is not this release's.
abbrev pub is_old : ℕ → Option ℕ → Bool
is_old started none = false
is_old started (some baseline) = leb started baseline

module _ {F : Type 0} (fm : Formats F) where
  -- What becomes of the last failure: cleared, set to the end of this release, or left.
  abbrev pub failure_patch : String → Bool → ℕ → Option (Option String)
  failure_patch phase cleared finished =
      if (phase == "Succeeded") && cleared
      then some none
      else if (phase == "Failed") || (phase == "Error")
      then some (some (fm.format finished))
      else none

  abbrev pub patch_failures : Answers → String → Option (Option String) → Exporter F → Exporter F
  patch_failures api key none s = s
  patch_failures api key (some v) s =
      if api.writes_failures then record s { failures = patch_key key v s.failures } else s

  abbrev last_failure_of : Answers → String → Option (Dict String) → String
  last_failure_of api key none = ""
  last_failure_of api key (some d) = if api.reads_failures then text_at key d else ""

  abbrev pub outcome_at : Answers → OutcomeRequest → Option ℕ → Exporter F → Exporter F × ℕ
  outcome_at api q none s = (s, 400)
  outcome_at api q (some finished) s =
      let key = app_state_key q.app_namespace q.app_name in
      let (t, r) =
        record_release fm api q.app_namespace q.app_name q.phase finished q.flow_start_time
          (last_failure_of api key s.failures) s in
      (patch_failures api key (failure_patch q.phase r.last_failure_cleared finished) t, 202)

  abbrev outcome_asked : Answers → Option OutcomeRequest → Exporter F → Exporter F × ℕ
  outcome_asked api none s = (s, 400)
  outcome_asked api (some q) s =
      if (q.app_namespace == "") || ((q.app_name == "") || (q.phase == ""))
      then (s, 400)
      else if not (is_terminal_phase q.phase)
      then (s, 202)
      else outcome_at api q (parse_time fm q.finished_at) s

  -- `handleArgoCDOutcome`; the body is decoded, none if it is not JSON.
  unfoldable pub handle_outcome :
      Answers → String → Option OutcomeRequest → Exporter F → Exporter F × ℕ
  handle_outcome api method body s =
      if not (method == "POST") then (s, 405) else outcome_asked api body s

  abbrev pub reconcile_at : Answers → Application → Option ℕ → Exporter F → Exporter F × Dict String
  reconcile_at api app none s = (s, app.annotations)
  reconcile_at api app (some finished) s =
      let a = app.annotations in
      let (t, r) =
        record_release fm api (text_at "hangar.io/dora-app-namespace" a)
          (text_at "hangar.io/dora-app" a) app.phase finished
          (text_at "hangar.io/dora-flow-start-time" a)
          (text_at "hangar.io/dora-last-failure-time" a) s in
      (t, patched (failure_patch app.phase r.last_failure_cleared finished) a)

  abbrev pub reconcile_from :
      Answers → Application → Option ℕ → Exporter F → Exporter F × Dict String
  reconcile_from api app none s = (s, app.annotations)
  reconcile_from api app (some started) s =
      if is_old started
        (parse_time fm (text_at "hangar.io/dora-baseline-started-at" app.annotations))
      then (s, app.annotations)
      else reconcile_at api app (parse_time fm app.finished_at) s

  -- `reconcile`: the exporter after it, and the annotations that its patch asks for.
  unfoldable pub reconcile : Answers → Application → Exporter F → Exporter F × Dict String
  reconcile api app s =
      if not (text_at "hangar.io/dora-pending" app.annotations == "true")
      then (s, app.annotations)
      else if not (is_terminal_phase app.phase)
      then (s, app.annotations)
      else reconcile_from api app (parse_time fm app.started_at) s

  -- What arrives: a request, or an event of an Application as it is then.
  pub data Event : Type 0 where
    outcome : String → Option OutcomeRequest → Event
    application : Application → Event

  pub step : Exporter F → Answers × Event → Exporter F
  step s (api, outcome method body) = (handle_outcome api method body s).0
  step s (api, application app) = (reconcile api app s).0

  pub run : Exporter F → List (Answers × Event) → Exporter F
  unfolding step
  run s [] = s
  run s (e ∷ es) = run (step s e) es
