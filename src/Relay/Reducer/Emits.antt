-- ===== src/Relay/Reducer/Emits.antt =====
-- Which CDEvents a release sends: each kind once, and the deploying event before the others.
use glidepath.Prelude.{
  String, ◌≡◌, refl, sym, false, List, [], ◌∷◌, ◌++◌, arith, Bool-cases, inl, inr,
}
use glidepath.Relay.Reducer.{
  Time, State, Kind, has, RelState, Emission, Decision, Status, Phase, Input, rollout, sync_failure,
  set_state, emit, report_drift, on_progressing, on_healthy, on_degraded, on_phase, fail_state,
  reduce, reduce_sync_failed, step, run, finish, sync_decision, sync_ignored, sync_failed,
}

-- The events were sent in this order, each of a kind not sent before; `after` is what is recorded.
abbrev pub Sends : List Kind → List Emission → List Kind → Type 0
Sends before [] after = before ≡ after
Sends before (e ∷ es) after = (has e.kind before ≡ false) × Sends (e.kind ∷ before) es after

Sends-append :
    (a b c : List Kind) (es fs : List Emission) → Sends a es b → Sends b fs c → Sends a (es ++ fs) c
Sends-append a b c [] fs p q = ground (arith, p)
Sends-append a b c (e ∷ es) fs p q = (p.0, Sends-append (e.kind ∷ a) b c es fs p.1 q)

-- A state and the events of a decision in the making.
abbrev pub Built : List Kind → RelState × List Emission → Type 0
Built before (s, es) = Sends before es s.emitted

pub emit-Built :
    (before : List Kind) (e : Emission) (t : RelState × List Emission)
    → Built before t
    → Built before (emit e t)
unfolding emit
emit-Built before e (s, es) h = elim (Bool-cases (has e.kind s.emitted)) [
  | inl old ↦ rw old h
  | inr new ↦ rw new (Sends-append before s.emitted (e.kind ∷ s.emitted) es (e ∷ []) h (new, refl))
]

abbrev pub Decided : List Kind → RelState × Decision → Type 0
Decided before (s, d) = Sends before d.emits s.emitted

finish-Decided :
    (before : List Kind) (r : String) (t : RelState × List Emission)
    → Built before t
    → Decided before (finish r t)
finish-Decided before r (s, []) h = h
finish-Decided before r (s, e ∷ es) h = h

sync_decision-Decided :
    (before : List Kind) (t : RelState × List Emission)
    → Built before t
    → Decided before (sync_decision t)
sync_decision-Decided before (s, []) h = h
sync_decision-Decided before (s, e ∷ es) h = h

pub emitted-set_state :
    (st : State) (now : Time) (s : RelState) → (set_state st now s).emitted ≡ s.emitted
unfolding set_state
emitted-set_state st now s = ground arith

ruleset built = (finish-Decided, emit-Built, emitted-set_state)

on_progressing-Decided :
    (f : Status) (now : Time) (s : RelState) → Decided s.emitted (on_progressing f now s)
unfolding on_progressing
on_progressing-Decided f now s = grind (arith, built)

report_drift-Decided : (d : String) (s : RelState) → Decided s.emitted (report_drift d s)
unfolding report_drift
report_drift-Decided d s = ground arith

pub fail_state-emitted :
    (f : Status) (now : Time) (s : RelState) → (fail_state f now s).emitted ≡ s.emitted
unfolding fail_state set_state
fail_state-emitted f now s = ground arith

on_healthy-Decided :
    (f : Status) (now : Time) (s : RelState) → Decided s.emitted (on_healthy f now s)
unfolding on_healthy
on_healthy-Decided f now s = grind (arith, built)

on_degraded-Decided :
    (f : Status) (now : Time) (s : RelState) → Decided s.emitted (on_degraded f now s)
unfolding on_degraded
on_degraded-Decided f now s = grind (arith, built, fail_state-emitted, report_drift-Decided)

on_phase-Decided :
    (p : Phase) (f : Status) (now : Time) (s : RelState) → Decided s.emitted (on_phase p f now s)
unfolding on_phase
on_phase-Decided Phase.progressing f now s = on_progressing-Decided f now s
on_phase-Decided Phase.paused f now s = on_progressing-Decided f now s
on_phase-Decided Phase.healthy f now s = on_healthy-Decided f now s
on_phase-Decided Phase.degraded f now s = on_degraded-Decided f now s
on_phase-Decided (Phase.other p) f now s = refl

pub reduce-Decided : (s : RelState) (f : Status) (now : Time) → Decided s.emitted (reduce s f now)
unfolding reduce
reduce-Decided s f now = grind (arith, on_phase-Decided, report_drift-Decided)

sync-Decided :
    (s : RelState) (m : String) (now : Time) → Decided s.emitted (reduce_sync_failed s m now)
unfolding reduce_sync_failed
sync-Decided s m now = elim (Bool-cases (sync_ignored s.state)) [
  | inl e ↦ rw e refl
  | inr e ↦ rw e (sync_decision-Decided s.emitted _ (emit-Built _ _ _ (emit-Built _ _ _ start)))
]
  where
    start : Built s.emitted (set_state sync_failed now (record s { last_error = m }), [])
    start = sym (emitted-set_state sync_failed now (record s { last_error = m }))

pub step-Decided : (s : RelState) (i : Time × Input) → Decided s.emitted (step s i)
unfolding step
step-Decided s (now, rollout f) = reduce-Decided s f now
step-Decided s (now, sync_failure m) = sync-Decided s m now

-- Whatever facts and sync failures arrive, in any order and however often, every event sent is of a
-- kind not sent before, and the record ends up listing what it listed plus exactly the kinds sent.
pub run-Sends :
    (s : RelState) (is : List (Time × Input)) → Sends s.emitted (run s is).1 (run s is).0.emitted
unfolding run
run-Sends s [] = refl
run-Sends s (i ∷ is) =
    let (s', d) = step s i in
    Sends-append s.emitted s'.emitted (run s' is).0.emitted d.emits (run s' is).1 (step-Decided s i)
      (run-Sends s' is)
