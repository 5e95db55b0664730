-- ===== src/Relay/Reducer/Graph.antt =====
-- The moves of a release between the states of reducer.go, as a relation.
use glidepath.Prelude.{◌≡◌, ◌⊎◌, true, false, List}
use glidepath.Relay.Reducer.{
  Time, State, Kind, progressing, healthy, degraded, aborted, sync_failed, has, deployed_success,
  deployed_failure, merged, Input, rollout, sync_failure, is_past, terminal,
}

-- A release fails while neither outcome was sent, or, with a failure sent, out of a state that is not
-- terminal, as one that Argo CD failed to sync does.
abbrev pub MayFail : List Kind → State → Type 0
MayFail sent a =
    ((has deployed_failure sent ≡ false) × (has deployed_success sent ≡ false))
    ⊎ ((has deployed_failure sent ≡ true) × (terminal a ≡ false))

-- The states of the releases that argocd_facts.go looks for.
abbrev pub InFlight : State → Type 0
InFlight a = (a ≡ merged) ⊎ ((a ≡ progressing) ⊎ (a ≡ sync_failed))

-- A sync failure comes with a release in flight, and a fact with any.
abbrev pub Fits : State → Time × Input → Type 0
Fits a (now, rollout f) = Unit
Fits a (now, sync_failure m) = InFlight a

-- One move of a release, by what its record lists as sent.
infix 40 ◌⊢◌⟶◌
pub data ◌⊢◌⟶◌ (sent : List Kind) : State → State → Type 0 where
  stay : {a : State} → sent ⊢ a ⟶ a
  start : {a : State} → terminal a ≡ false → sent ⊢ a ⟶ progressing
  retry : sent ⊢ aborted ⟶ progressing
  succeed : {a : State} → is_past a ≡ false → has deployed_success sent ≡ false → sent ⊢ a ⟶ healthy
  abort : {a : State} → is_past a ≡ false → MayFail sent a → sent ⊢ a ⟶ aborted
  degrade : {a : State} → is_past a ≡ false → MayFail sent a → sent ⊢ a ⟶ degraded
  fail_sync : {a : State} → InFlight a → sent ⊢ a ⟶ sync_failed

ruleset moves = (stay, start, retry, succeed, abort, degrade, fail_sync)
