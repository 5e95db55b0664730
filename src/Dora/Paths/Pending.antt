-- ===== src/Dora/Paths/Pending.antt =====
-- Each release of an Application is recorded once by `reconcile` of dora-exporter/main.go.
use glidepath.Prelude.{ℕ, ◌≡◌, String, Option, some, none, ◌⊎◌, ◌≤◌, ◌<◌, ◌≢◌}
use glidepath.Prelude.Dict.{Dict, text_at}
use glidepath.Dora.Exporter.{Formats, Exporter, Answers, record_release, OutcomeResult, parse_time}
use glidepath.Dora.Paths.{Application}
use glidepath.Dora.Paths.Patch.{IsEnded, IsPatched}

module _ {F : Type 0} (fm : Formats F) where
  -- The sync that the Application had before the release, where the annotation can be read.
  abbrev pub baseline_of : Application → Option ℕ
  baseline_of app = parse_time fm (text_at "hangar.io/dora-baseline-started-at" app.annotations)

  -- Why `reconcile` does nothing: the release is not pending, its sync goes on, is the one from before
  -- it or an earlier one, or one of its times cannot be read.
  pub data IsSpared (app : Application) : Type 0 where
    settled : text_at "hangar.io/dora-pending" app.annotations ≢ "true" → IsSpared app
    going_on : ¬ IsEnded app.phase → IsSpared app
    not_begun : parse_time fm app.started_at ≡ none → IsSpared app
    before :
        (started baseline : ℕ)
        → parse_time fm app.started_at ≡ some started
        → baseline_of app ≡ some baseline
        → started ≤ baseline
        → IsSpared app
    not_over : parse_time fm app.finished_at ≡ none → IsSpared app

  -- The release is counted under the names, the times and the failure that the annotations give.
  abbrev pub counting : Answers → Application → ℕ → Exporter F → Exporter F × OutcomeResult F
  counting api app finished s =
      let a = app.annotations in
      record_release fm api (text_at "hangar.io/dora-app-namespace" a)
        (text_at "hangar.io/dora-app" a) app.phase finished
        (text_at "hangar.io/dora-flow-start-time" a) (text_at "hangar.io/dora-last-failure-time" a)
        s

  -- What a call of `reconcile` does: nothing at all, for a reason, or it records the release that is
  -- pending.
  pub data Reconciled (api : Answers) (app : Application) (s : Exporter F)
      : Exporter F × Dict String → Type 0 where
    left : IsSpared app → Reconciled api app s (s, app.annotations)
    recorded :
        (started finished : ℕ)
        → text_at "hangar.io/dora-pending" app.annotations ≡ "true"
        → IsEnded app.phase
        → parse_time fm app.started_at ≡ some started
        → (baseline_of app ≡ none)
          ⊎ ((baseline : ℕ) × (baseline_of app ≡ some baseline) × (baseline < started))
        → parse_time fm app.finished_at ≡ some finished
        → (annotations : Dict String)
        → IsPatched fm app.phase finished
            (counting api app finished s).1.last_failure_cleared
            app.annotations
            annotations
        → Reconciled api app s ((counting api app finished s).0, annotations)
