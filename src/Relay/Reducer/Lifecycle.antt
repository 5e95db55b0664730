-- ===== src/Relay/Reducer/Lifecycle.antt =====
-- What the states, the pod hash and the first healthy time may do over a release's life.
use glidepath.Prelude.{
  String, ◌≡◌, ◌≢◌, refl, true, List, [], ◌∷◌, arith, ◌==◌, eq_iff, Bool-cases, inl, inr, ◌&&◌, not,
}
use glidepath.Relay.Reducer.{
  Time, RelState, Decision, Status, Phase, Input, rollout, sync_failure, report_drift,
  on_progressing, on_healthy, on_degraded, on_phase, reduce, reduce_sync_failed, step, run,
  sync_ignored, is_past, terminal, hash_change, is_healthy_phase,
}

-- What `reduce` and the drift report leave as it was before a phase is applied.
pub record Prepared (s u : RelState) : Type 0 where
  pub state : u.state ≡ s.state
  pub state_at : u.state_at ≡ s.state_at
  pub healthy_at : u.healthy_at ≡ s.healthy_at
  pub emitted : u.emitted ≡ s.emitted
  pub hash : s.pod_hash ≢ "" → u.pod_hash ≡ s.pod_hash

-- A fact is a drift report or its phase applied to a prepared state.
pub reduce_cases {ℓ} :
    (P : RelState × Decision → Type ℓ) (s : RelState) (f : Status) (now : Time)
    → ((u : RelState) → Prepared s u → P (on_phase f.phase f now u))
    → ((u : RelState) (why : Decision) → Prepared s u → why.emits ≡ [] → P (u, why))
    → P (reduce s f now)
unfolding reduce report_drift
reduce_cases P s f now phase drift = elim (Bool-cases (s.pod_hash == "")) [
  | inl fresh ↦ rw fresh (phase _ (ground (arith, eq_iff s.pod_hash "")))
  | inr known ↦ rw known (elim (Bool-cases (not (hash == "") && not (hash == s.pod_hash))) [
    | inl other ↦ rw other (elim (Bool-cases (s.drift == hash_change s.pod_hash hash)) [
      | inl old ↦ rw old (drift _ _ (ground arith) refl)
      | inr new ↦ rw new (drift _ _ (ground arith) refl)
    ])
    | inr own ↦ rw own (elim (Bool-cases (not (s.drift == "") && is_healthy_phase f.phase)) [
      | inl over ↦ rw over (phase _ (ground arith))
      | inr plain ↦ rw plain (phase _ (ground arith))
    ])
  ])
]
  where
    hash : String
    hash = f.current_pod_hash

-- A release that is superseded, rolled back or closed: its state, its times and what it has sent
-- never change again, and nothing is sent.
abbrev Untouched : RelState → RelState × Decision → Type 0
Untouched s (t, d) =
    (t.state ≡ s.state)
    × (t.state_at ≡ s.state_at)
    × (t.healthy_at ≡ s.healthy_at)
    × (t.emitted ≡ s.emitted)
    × (d.emits ≡ [])

past-on_phase :
    (p : Phase) (f : Status) (now : Time) (s : RelState)
    → is_past s.state ≡ true
    → Untouched s (on_phase p f now s)
unfolding on_phase on_progressing on_healthy on_degraded is_past terminal
past-on_phase p f now s h = ground arith

past-reduce :
    (s : RelState) (f : Status) (now : Time) → is_past s.state ≡ true → Untouched s (reduce s f now)
past-reduce s f now h =
    reduce_cases (Untouched s) s f now
      (λ u p.
        ground (arith, p.state, p.state_at, p.healthy_at, p.emitted, past-on_phase f.phase f now u))
      (λ u why p e. (p.state, p.state_at, p.healthy_at, p.emitted, e))

past-step : (s : RelState) (i : Time × Input) → is_past s.state ≡ true → Untouched s (step s i)
unfolding step reduce_sync_failed is_past sync_ignored
past-step s (now, rollout f) h = past-reduce s f now h
past-step s (now, sync_failure m) h = ground arith

-- A release that is superseded, rolled back or closed keeps its state, the time of that state, the
-- time when it first was healthy and what it has sent, whatever arrives; and nothing is sent.
pub run_past :
    (s : RelState) (is : List (Time × Input))
    → is_past s.state ≡ true
    → ((run s is).0.state ≡ s.state)
      × ((run s is).0.state_at ≡ s.state_at)
      × ((run s is).0.healthy_at ≡ s.healthy_at)
      × ((run s is).0.emitted ≡ s.emitted)
      × ((run s is).1 ≡ [])
unfolding run
run_past s [] h = (refl, refl, refl, refl, refl)
run_past s (i ∷ is) h =
    let u = past-step s i h in ground (arith, u, run_past (step s i).0 is (rw u.0 h))
