-- ===== src/Relay/Reducer.antt =====
-- glidepath/broker/cmd/glidepath-relay/reducer.go: the release state machine, with no input or
-- output. A method that changes `*relState` returns the new record. A `time.Time` is the number of
-- nanoseconds since Go's zero time, so 0 is the zero time.
pub mod Emits
pub mod Ordering
pub mod Lifecycle
pub mod Healthy
pub mod Graph
pub mod Release
unfoldable pub use glidepath.Relay.Reducer.Release.{
  Time, state_text, same_state, kind_text, same_kind, has, event_deploying, event_deployed,
  event_rolled_back, em_deploying, em_success, em_failure, em_rolled_back, terminal, phase_text,
}
pub use glidepath.Relay.Reducer.Release.{
  State, proposed, merged, progressing, healthy, degraded, aborted, superseded, rolled_back, closed,
  sync_failed, other, Kind, deploying, deployed_success, deployed_failure, rolledback, unknown,
  RelState, Emission, Decision, Phase, paused, Status,
}
use glidepath.Prelude.{
  ℕ, String, Bool, true, false, ◌&&◌, ◌||◌, not, List, [], ◌∷◌, ◌++◌, Option, some, none, ◌==◌, eqb,
  if◌then◌else◌,
}
use glidepath.Prelude.Text.{concat}

-- The closure `setState`: the time moves only when the state does.
unfoldable pub set_state : State → Time → RelState → RelState
set_state st now s = if same_state s.state st then s else record s { state = st; state_at = now }

-- The closure `emit`: a kind is added to the decision once, and recorded.
unfoldable pub emit : Emission → RelState × List Emission → RelState × List Emission
emit e (s, es) =
    if has e.kind s.emitted
    then (s, es)
    else (record s { emitted = e.kind ∷ s.emitted }, es ++ e ∷ [])

-- A decision with only a reason for changing nothing.
abbrev pub ignoring : String → Decision
ignoring why = record { emits = []; drift = ""; ignore = why; rolled_back = "" }

-- The drift report: a description is alerted once while it stays the same.
unfoldable pub report_drift : String → RelState → RelState × Decision
report_drift desc s =
    if s.drift == desc
    then (s, ignoring "drift (already reported)")
    else (record s { drift = desc }, record (ignoring "drift") { drift = desc })

-- The end of `reduce`: what a branch emitted, or that there was nothing new.
abbrev pub finish : String → RelState × List Emission → RelState × Decision
finish replaced (s, []) =
    (s, record { emits = []; drift = ""; ignore = "nothing new"; rolled_back = replaced })
finish replaced (s, e ∷ es) =
    (s, record { emits = e ∷ es; drift = ""; ignore = ""; rolled_back = replaced })

-- The phase as `strings.ToLower` writes it in the two phases where it is used.
abbrev lower_phase : Phase → String
lower_phase Phase.paused = "paused"
lower_phase _ = "progressing"

-- `case "Progressing", "Paused"`.
unfoldable pub on_progressing : Status → Time → RelState → RelState × Decision
on_progressing f now s =
    if same_state s.state aborted && not f.abort
    then (set_state progressing now s, ignoring "retry of an aborted release")
    else if terminal s.state
    then (
      s,
      ignoring
          (concat (lower_phase f.phase ∷ " fact after the release is " ∷ state_text s.state ∷ [])),
    )
    else finish "" (emit em_deploying (set_state progressing now s, []))

-- The states of a release that is no longer the current one.
unfoldable pub is_past : State → Bool
is_past superseded = true
is_past rolled_back = true
is_past closed = true
is_past _ = false

abbrev release_kind_rollback : String
release_kind_rollback = "rollback"

abbrev mark_healthy : Time → RelState → RelState
mark_healthy now s = if eqb s.healthy_at 0 then record s { healthy_at = now } else s

-- `case "Healthy"`.
unfoldable pub on_healthy : Status → Time → RelState → RelState × Decision
on_healthy f now s =
    if is_past s.state
    then (s, ignoring (concat ("release already " ∷ state_text s.state ∷ [])))
    else if has deployed_success s.emitted
    then (s, ignoring "already reported healthy")
    else let t =
        emit em_success (emit em_deploying (mark_healthy now (set_state healthy now s), [])) in
      if s.kind == release_kind_rollback && not (s.rollback_of == "")
      then finish s.rollback_of (emit em_rolled_back t)
      else finish "" t

unfoldable pub fail_state : Status → Time → RelState → RelState
fail_state f now s = if f.abort then set_state aborted now s else set_state degraded now s

-- `case "Degraded"`.
unfoldable pub on_degraded : Status → Time → RelState → RelState × Decision
on_degraded f now s =
    if is_past s.state
    then (s, ignoring (concat ("release already " ∷ state_text s.state ∷ [])))
    else if has deployed_failure s.emitted
    then (if terminal s.state then s else fail_state f now s, ignoring "already reported failed")
    else if has deployed_success s.emitted
    then report_drift
        (concat
          ("rollout became Degraded after the release was reported healthy: " ∷ f.message ∷ []))
        s
    else finish "" (emit em_failure (emit em_deploying (fail_state f now s, [])))

-- The second `switch` of `reduce`.
unfoldable pub on_phase : Phase → Status → Time → RelState → RelState × Decision
on_phase Phase.progressing f now s = on_progressing f now s
on_phase Phase.paused f now s = on_progressing f now s
on_phase Phase.healthy f now s = on_healthy f now s
on_phase Phase.degraded f now s = on_degraded f now s
on_phase (Phase.other p) f now s = (s, ignoring (concat ("no state for phase " ∷ p ∷ [])))

abbrev pub is_healthy_phase : Phase → Bool
is_healthy_phase Phase.healthy = true
is_healthy_phase _ = false

pub hash_change : String → String → String
hash_change old new = concat ("pod template changed outside a release: " ∷ old ∷ " -> " ∷ new ∷ [])

-- `reduce`: the fact is noted, the pod template checked, and the phase applied.
unfoldable pub reduce : RelState → Status → Time → RelState × Decision
reduce s₀ f now =
    let s = record s₀ { last_fact_at = now; last_fact_phase = phase_text f.phase } in
    let hash = f.current_pod_hash in
    if s.pod_hash == ""
    then on_phase f.phase f now (record s { pod_hash = hash })
    else if not (hash == "") && not (hash == s.pod_hash)
    then report_drift (hash_change s.pod_hash hash) s
    else if not (s.drift == "") && is_healthy_phase f.phase
    then on_phase f.phase f now (record s { drift = "" })
    else on_phase f.phase f now s

-- The states on which a sync failure is not this release failing to deploy.
unfoldable pub sync_ignored : State → Bool
sync_ignored healthy = true
sync_ignored superseded = true
sync_ignored rolled_back = true
sync_ignored closed = true
sync_ignored _ = false

abbrev pub sync_decision : RelState × List Emission → RelState × Decision
sync_decision (s, []) = (s, ignoring "sync failure already reported")
sync_decision (s, e ∷ es) =
    (s, record { emits = e ∷ es; drift = ""; ignore = ""; rolled_back = "" })

-- `reduceSyncFailed`.
unfoldable pub reduce_sync_failed : RelState → String → Time → RelState × Decision
reduce_sync_failed s message now =
    if sync_ignored s.state
    then (s, ignoring (concat ("sync failure on a release that is " ∷ state_text s.state ∷ [])))
    else sync_decision (
        emit em_failure
          (emit em_deploying (set_state sync_failed now (record s { last_error = message }), [])))

-- One input of the relay about a release: a Rollout fact or an Argo CD sync failure.
pub data Input : Type 0 where
  rollout : Status → Input
  sync_failure : String → Input

unfoldable pub step : RelState → Time × Input → RelState × Decision
step s (now, rollout f) = reduce s f now
step s (now, sync_failure message) = reduce_sync_failed s message now

-- The inputs in the order of their arrival: the state that they leave, and every event.
unfoldable pub run : RelState → List (Time × Input) → RelState × List Emission
run s [] = (s, [])
run s (i ∷ is) = let (s', d) = step s i in let (s'', es) = run s' is in (s'', d.emits ++ es)
