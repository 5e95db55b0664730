-- ===== src/Relay/Reducer/Healthy.antt =====
-- What it means that a release was reported healthy, and what stays fixed from then on.
use glidepath.Prelude.{◌<◌, ◌≡◌, ◌≢◌, refl, sym, ◌∙◌, ◌⊎◌, true, List, [], ◌∷◌, arith, All}
use glidepath.Relay.Reducer.{
  Time, healthy, has, deployed_success, RelState, Status, Phase, Input, rollout, sync_failure,
  set_state, emit, report_drift, on_progressing, on_healthy, on_degraded, on_phase, fail_state,
  reduce_sync_failed, step, run, sync_ignored, is_past, terminal,
}
use glidepath.Relay.Reducer.Lifecycle.{Prepared, reduce_cases}

-- A success that was sent belongs to a release that is healthy, or was until it was replaced; and
-- the time at which it first was healthy is recorded.
pub record IsHonest (s : RelState) : Type 0 where
  pub success_state :
      has deployed_success s.emitted ≡ true → (s.state ≡ healthy) ⊎ (is_past s.state ≡ true)
  pub success_time : has deployed_success s.emitted ≡ true → 0 < s.healthy_at
  pub healthy_time : s.state ≡ healthy → 0 < s.healthy_at

IsHonest-progressing :
    (f : Status) (now : Time) (s : RelState)
    → 0 < now
    → IsHonest s
    → IsHonest (on_progressing f now s).0
unfolding on_progressing set_state emit is_past terminal
IsHonest-progressing f now s pos h = ground (arith, h.success_state, h.success_time, h.healthy_time)

IsHonest-healthy :
    (f : Status) (now : Time) (s : RelState)
    → 0 < now
    → IsHonest s
    → IsHonest (on_healthy f now s).0
unfolding on_healthy set_state emit is_past terminal
IsHonest-healthy f now s pos h = ground (arith, h.success_state, h.success_time, h.healthy_time)

IsHonest-degraded :
    (f : Status) (now : Time) (s : RelState)
    → 0 < now
    → IsHonest s
    → IsHonest (on_degraded f now s).0
unfolding on_degraded set_state emit is_past terminal fail_state report_drift
IsHonest-degraded f now s pos h = ground (arith, h.success_state, h.success_time, h.healthy_time)

IsHonest-on_phase :
    (p : Phase) (f : Status) (now : Time) (s : RelState)
    → 0 < now
    → IsHonest s
    → IsHonest (on_phase p f now s).0
unfolding on_phase
IsHonest-on_phase Phase.progressing f now s pos h = IsHonest-progressing f now s pos h
IsHonest-on_phase Phase.paused f now s pos h = IsHonest-progressing f now s pos h
IsHonest-on_phase Phase.healthy f now s pos h = IsHonest-healthy f now s pos h
IsHonest-on_phase Phase.degraded f now s pos h = IsHonest-degraded f now s pos h
IsHonest-on_phase (Phase.other p) f now s pos h = h

IsHonest-Prepared : (s u : RelState) → Prepared s u → IsHonest s → IsHonest u
IsHonest-Prepared s u p h = record {
  success_state = rw (p.emitted, p.state) h.success_state;
  success_time = rw (p.emitted, p.healthy_at) h.success_time;
  healthy_time = rw (p.state, p.healthy_at) h.healthy_time;
}

IsHonest-step : (s : RelState) (i : Time × Input) → 0 < i.0 → IsHonest s → IsHonest (step s i).0
unfolding step reduce_sync_failed set_state emit is_past sync_ignored
IsHonest-step s (now, rollout f) pos h =
    reduce_cases (λ r. IsHonest r.0) s f now
      (λ u p. IsHonest-on_phase f.phase f now u pos (IsHonest-Prepared s u p h))
      (λ u why p e. IsHonest-Prepared s u p h)
IsHonest-step s (now, sync_failure m) pos h =
    ground (arith, h.success_state, h.success_time, h.healthy_time)

-- From an honest record, whatever arrives at times after Go's zero time leaves an honest record: a
-- release that was reported deployed is healthy or was replaced, never failed, syncing or in
-- progress again, and has its first healthy time recorded, as has every release in state healthy.
pub run-IsHonest :
    (s : RelState) (is : List (Time × Input))
    → IsHonest s
    → All (λ i. 0 < i.0) is
    → IsHonest (run s is).0
unfolding run
run-IsHonest s [] h pos = h
run-IsHonest s (i ∷ is) h pos = run-IsHonest (step s i).0 is (IsHonest-step s i pos.0 h) pos.1

-- What is fixed once it is set.
abbrev Fixed : RelState → RelState → Type 0
Fixed s t =
    (0 < s.healthy_at → t.healthy_at ≡ s.healthy_at) × (s.pod_hash ≢ "" → t.pod_hash ≡ s.pod_hash)

Fixed-on_phase :
    (p : Phase) (f : Status) (now : Time) (s : RelState)
    → (0 < s.healthy_at → (on_phase p f now s).0.healthy_at ≡ s.healthy_at)
      × ((on_phase p f now s).0.pod_hash ≡ s.pod_hash)
unfolding on_phase on_progressing on_healthy on_degraded set_state emit fail_state report_drift
Fixed-on_phase Phase.healthy f now s = ground arith
Fixed-on_phase Phase.degraded f now s = ground arith
Fixed-on_phase Phase.progressing f now s = ground arith
Fixed-on_phase Phase.paused f now s = ground arith
Fixed-on_phase (Phase.other p) f now s = ground arith

Fixed-step : (s : RelState) (i : Time × Input) → Fixed s (step s i).0
unfolding step reduce_sync_failed set_state emit
Fixed-step s (now, rollout f) =
    reduce_cases (λ r. Fixed s r.0) s f now
      (λ u p.
        let q = Fixed-on_phase f.phase f now u in
        (λ h. q.0 (rw p.healthy_at h) ∙ p.healthy_at, λ h. q.1 ∙ p.hash h))
      (λ u why p e. (λ h. p.healthy_at, p.hash))
Fixed-step s (now, sync_failure m) = ground arith

-- Once they are set, the time when the release first was healthy and the pod hash that identifies
-- its template are the same after any inputs.
pub run-Fixed :
    (s : RelState) (is : List (Time × Input))
    → (0 < s.healthy_at → (run s is).0.healthy_at ≡ s.healthy_at)
      × (s.pod_hash ≢ "" → (run s is).0.pod_hash ≡ s.pod_hash)
unfolding run
run-Fixed s [] = (λ h. refl, λ h. refl)
run-Fixed s (i ∷ is) =
    let one = Fixed-step s i in
    let rest = run-Fixed (step s i).0 is in
    (λ h. rest.0 (rw (one.0 h) h) ∙ one.0 h, λ h. rest.1 (λ e. h (sym (one.1 h) ∙ e)) ∙ one.1 h)
