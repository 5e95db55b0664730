-- ===== src/Relay/Reducer/Ordering.antt =====
-- The deploying event goes out before any other of its release, also when the earlier facts are lost.
use glidepath.Prelude.{
  String, ◌≡◌, refl, sym, true, List, [], ◌∷◌, ◌++◌, arith, eq_iff, Bool-cases, inl, inr,
}
use glidepath.Relay.Reducer.{
  Time, State, Kind, deploying, deployed_success, deployed_failure, rolledback, same_kind, has,
  RelState, Emission, Decision, Status, Phase, Input, rollout, sync_failure, em_deploying,
  em_success, em_failure, em_rolled_back, set_state, emit, report_drift, on_progressing, on_healthy,
  on_degraded, on_phase, fail_state, reduce, reduce_sync_failed, step, run, finish, mark_healthy,
  sync_decision, sync_failed,
}
use glidepath.Relay.Reducer.Emits.{
  Sends, Built, emit-Built, emitted-set_state, fail_state-emitted, step-Decided,
}

-- What the record lists: a deploying event wherever there is a success or a failure, and a success
-- wherever there is a rollback event.
pub record IsOrdered (ks : List Kind) : Type 0 where
  pub success_after : has deployed_success ks ≡ true → has deploying ks ≡ true
  pub failure_after : has deployed_failure ks ≡ true → has deploying ks ≡ true
  pub rollback_after : has rolledback ks ≡ true → has deployed_success ks ≡ true

-- Every event of the list finds the record that it needs.
abbrev pub InOrder : List Kind → List Emission → Type 0
InOrder before [] = IsOrdered before
InOrder before (e ∷ es) = IsOrdered before × InOrder (e.kind ∷ before) es

InOrder-head : (a : List Kind) (es : List Emission) → InOrder a es → IsOrdered a
InOrder-head a [] h = h
InOrder-head a (e ∷ es) h = h.0

InOrder-append :
    (a b : List Kind) (es fs : List Emission)
    → Sends a es b
    → InOrder a es
    → InOrder b fs
    → InOrder a (es ++ fs)
InOrder-append a b [] fs s p q = rw s q
InOrder-append a b (e ∷ es) fs s p q = (p.0, InOrder-append (e.kind ∷ a) b es fs s.1 p.1 q)

IsOrdered-after : (a b : List Kind) (es : List Emission) → Sends a es b → InOrder a es → IsOrdered b
IsOrdered-after a b [] s p = rw (← s) p
IsOrdered-after a b (e ∷ es) s p = IsOrdered-after (e.kind ∷ a) b es s.1 p.1

-- A decision in the making, with its events in order.
record Good (before : List Kind) (t : RelState × List Emission) : Type 0 where
  built : Built before t
  in_order : InOrder before t.1

emit-Good :
    (before : List Kind) (e : Emission) (t : RelState × List Emission)
    → Good before t
    → (IsOrdered t.0.emitted → IsOrdered (e.kind ∷ t.0.emitted))
    → Good before (emit e t)
unfolding emit
emit-Good before e (s, es) g k = record {
  built = emit-Built before e (s, es) g.built;
  in_order = ordered;
}
  where
    now : IsOrdered s.emitted
    now = IsOrdered-after before s.emitted es g.built g.in_order

    ordered : InOrder before (emit e (s, es)).1
    ordered = elim (Bool-cases (has e.kind s.emitted)) [
      | inl old ↦ rw old g.in_order
      | inr new ↦
          rw new (InOrder-append before s.emitted es (e ∷ []) g.built g.in_order (now, k now))
    ]

IsOrdered-deploying : (ks : List Kind) → IsOrdered ks → IsOrdered (deploying ∷ ks)
IsOrdered-deploying ks h = ground (arith, h.success_after, h.failure_after, h.rollback_after)

IsOrdered-success :
    (ks : List Kind) → has deploying ks ≡ true → IsOrdered ks → IsOrdered (deployed_success ∷ ks)
IsOrdered-success ks d h = ground (arith, h.success_after, h.failure_after, h.rollback_after)

IsOrdered-failure :
    (ks : List Kind) → has deploying ks ≡ true → IsOrdered ks → IsOrdered (deployed_failure ∷ ks)
IsOrdered-failure ks d h = ground (arith, h.success_after, h.failure_after, h.rollback_after)

IsOrdered-rolledback :
    (ks : List Kind) → has deployed_success ks ≡ true → IsOrdered ks → IsOrdered (rolledback ∷ ks)
IsOrdered-rolledback ks d h = ground (arith, h.success_after, h.failure_after, h.rollback_after)

same_kind_refl : (k : Kind) → same_kind k k ≡ true
same_kind_refl (Kind.unknown s) = (eq_iff s s).1 refl
same_kind_refl deploying = refl
same_kind_refl _ = refl

-- What has just been sent is listed.
has-emit : (e : Emission) (t : RelState × List Emission) → has e.kind (emit e t).0.emitted ≡ true
unfolding emit
has-emit e (s, es) = ground (arith, same_kind_refl e.kind)

emit_deploying-Good :
    (before : List Kind) (t : RelState × List Emission)
    → Good before t
    → Good before (emit em_deploying t)
emit_deploying-Good before t g = emit-Good before em_deploying t g (IsOrdered-deploying t.0.emitted)

emit_success-Good :
    (before : List Kind) (t : RelState × List Emission)
    → Good before t
    → Good before (emit em_success (emit em_deploying t))
emit_success-Good before t g =
    emit-Good before em_success (emit em_deploying t) (emit_deploying-Good before t g)
      (IsOrdered-success _ (has-emit em_deploying t))

emit_failure-Good :
    (before : List Kind) (t : RelState × List Emission)
    → Good before t
    → Good before (emit em_failure (emit em_deploying t))
emit_failure-Good before t g =
    emit-Good before em_failure (emit em_deploying t) (emit_deploying-Good before t g)
      (IsOrdered-failure _ (has-emit em_deploying t))

emit_rolled_back-Good :
    (before : List Kind) (t : RelState × List Emission)
    → Good before t
    → Good before (emit em_rolled_back (emit em_success (emit em_deploying t)))
emit_rolled_back-Good before t g =
    emit-Good before em_rolled_back (emit em_success (emit em_deploying t))
      (emit_success-Good before t g)
      (IsOrdered-rolledback _ (has-emit em_success (emit em_deploying t)))

-- The events of a decision leave in order.
abbrev Ordered : List Kind → RelState × Decision → Type 0
Ordered before (s, d) = InOrder before d.emits

finish-Ordered :
    (before : List Kind) (r : String) (t : RelState × List Emission)
    → Good before t
    → Ordered before (finish r t)
finish-Ordered before r (s, []) g = g.in_order
finish-Ordered before r (s, e ∷ es) g = g.in_order

sync_decision-Ordered :
    (before : List Kind) (t : RelState × List Emission)
    → Good before t
    → Ordered before (sync_decision t)
sync_decision-Ordered before (s, []) g = g.in_order
sync_decision-Ordered before (s, e ∷ es) g = g.in_order

start-Good :
    (before : List Kind) (s : RelState)
    → s.emitted ≡ before
    → IsOrdered before
    → Good before (s, [])
start-Good before s e h = record { built = sym e; in_order = h }

on_progressing-Ordered :
    (f : Status) (now : Time) (s : RelState)
    → IsOrdered s.emitted
    → Ordered s.emitted (on_progressing f now s)
unfolding on_progressing
on_progressing-Ordered f now s h =
    let done = finish-Ordered s.emitted "" _ (
      emit_deploying-Good s.emitted _ (
        start-Good s.emitted (set_state State.progressing now s)
          (emitted-set_state State.progressing now s) h)) in
    ground (arith, done)

on_healthy-Ordered :
    (f : Status) (now : Time) (s : RelState)
    → IsOrdered s.emitted
    → Ordered s.emitted (on_healthy f now s)
unfolding on_healthy
on_healthy-Ordered f now s h =
    let t = mark_healthy now (set_state State.healthy now s) in
    let e : t.emitted ≡ s.emitted = ground (arith, emitted-set_state State.healthy now s) in
    let g = start-Good s.emitted t e h in
    ground (
      arith,
      finish-Ordered s.emitted "" _ (emit_success-Good s.emitted _ g),
      finish-Ordered s.emitted s.rollback_of _ (emit_rolled_back-Good s.emitted _ g),
    )

report_drift-Ordered :
    (before : List Kind) (d : String) (s : RelState)
    → IsOrdered before
    → Ordered before (report_drift d s)
unfolding report_drift
report_drift-Ordered before d s h = ground arith

on_degraded-Ordered :
    (f : Status) (now : Time) (s : RelState)
    → IsOrdered s.emitted
    → Ordered s.emitted (on_degraded f now s)
unfolding on_degraded report_drift
on_degraded-Ordered f now s h =
    let g = start-Good s.emitted (fail_state f now s) (fail_state-emitted f now s) h in
    ground (arith, finish-Ordered s.emitted "" _ (emit_failure-Good s.emitted _ g))

on_phase-Ordered :
    (p : Phase) (f : Status) (now : Time) (s : RelState)
    → IsOrdered s.emitted
    → Ordered s.emitted (on_phase p f now s)
unfolding on_phase
on_phase-Ordered Phase.progressing f now s h = on_progressing-Ordered f now s h
on_phase-Ordered Phase.paused f now s h = on_progressing-Ordered f now s h
on_phase-Ordered Phase.healthy f now s h = on_healthy-Ordered f now s h
on_phase-Ordered Phase.degraded f now s h = on_degraded-Ordered f now s h
on_phase-Ordered (Phase.other p) f now s h = h

reduce-Ordered :
    (s : RelState) (f : Status) (now : Time)
    → IsOrdered s.emitted
    → Ordered s.emitted (reduce s f now)
unfolding reduce
reduce-Ordered s f now h = grind (arith, on_phase-Ordered, report_drift-Ordered)

sync-Ordered :
    (s : RelState) (m : String) (now : Time)
    → IsOrdered s.emitted
    → Ordered s.emitted (reduce_sync_failed s m now)
unfolding reduce_sync_failed
sync-Ordered s m now h =
    let t = set_state sync_failed now (record s { last_error = m }) in
    let e : t.emitted ≡ s.emitted =
      emitted-set_state sync_failed now (record s { last_error = m }) in
    let g = start-Good s.emitted t e h in
    ground (arith, sync_decision-Ordered s.emitted _ (emit_failure-Good s.emitted _ g))

step-Ordered :
    (s : RelState) (i : Time × Input) → IsOrdered s.emitted → Ordered s.emitted (step s i)
unfolding step
step-Ordered s (now, rollout f) h = reduce-Ordered s f now h
step-Ordered s (now, sync_failure m) h = sync-Ordered s m now h

-- From a record that lists its kinds in order, whatever arrives: just before and just after every
-- event sent, a success or a failure is listed only with a deploying event, and a rollback event
-- only with a success.
pub run-InOrder :
    (s : RelState) (is : List (Time × Input)) → IsOrdered s.emitted → InOrder s.emitted (run s is).1
unfolding run
run-InOrder s [] h = h
run-InOrder s (i ∷ is) h =
    let (s', d) = step s i in
    let now = step-Ordered s i h in
    let then' = IsOrdered-after s.emitted s'.emitted d.emits (step-Decided s i) now in
    InOrder-append s.emitted s'.emitted d.emits (run s' is).1 (step-Decided s i) now
      (run-InOrder s' is then')
