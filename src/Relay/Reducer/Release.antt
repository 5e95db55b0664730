-- ===== src/Relay/Reducer/Release.antt =====
-- glidepath/broker/cmd/glidepath-relay/reducer.go: what the reducer keeps of a release, its events, and the
-- facts about it. A `time.Time` is the number of nanoseconds since Go's zero time, so 0 is the zero time.
use glidepath.Prelude.{ℕ, String, Bool, true, false, ◌||◌, List, [], ◌∷◌, ◌==◌}

abbrev pub Time : Type 0
Time = ℕ

-- The states by name; a text that is none of the constants is kept as it is.
pub data State : Type 0 where
  proposed merged progressing healthy degraded aborted superseded rolled_back closed : State
  sync_failed : State
  other : String → State

unfoldable pub state_text : State → String
state_text proposed = "proposed"
state_text merged = "merged"
state_text progressing = "progressing"
state_text healthy = "healthy"
state_text degraded = "degraded"
state_text aborted = "aborted"
state_text superseded = "superseded"
state_text rolled_back = "rolled-back"
state_text closed = "closed"
state_text sync_failed = "sync-failed"
state_text (other s) = s

abbrev pub same_state : State → State → Bool
same_state proposed proposed = true
same_state merged merged = true
same_state progressing progressing = true
same_state healthy healthy = true
same_state degraded degraded = true
same_state aborted aborted = true
same_state superseded superseded = true
same_state rolled_back rolled_back = true
same_state closed closed = true
same_state sync_failed sync_failed = true
same_state (other a) (other b) = a == b
same_state _ _ = false

-- The CDEvent kinds that `Emitted` is keyed by; a record may hold others.
pub data Kind : Type 0 where
  deploying deployed_success deployed_failure rolledback : Kind
  unknown : String → Kind

unfoldable pub kind_text : Kind → String
kind_text deploying = "deploying"
kind_text deployed_success = "deployed-success"
kind_text deployed_failure = "deployed-failure"
kind_text rolledback = "rolledback"
kind_text (unknown s) = s

abbrev pub same_kind : Kind → Kind → Bool
same_kind deploying deploying = true
same_kind deployed_success deployed_success = true
same_kind deployed_failure deployed_failure = true
same_kind rolledback rolledback = true
same_kind (unknown a) (unknown b) = a == b
same_kind _ _ = false

-- `s.Emitted[k]`, the map kept as the list of its keys.
abbrev pub has : Kind → List Kind → Bool
has k [] = false
has k (j ∷ ks) = same_kind j k || has k ks

pub record RelState : Type 0 where
  pub state : State
  pub state_at : Time
  pub last_fact_at : Time
  pub last_fact_phase : String
  pub pod_hash : String
  pub drift : String
  pub last_error : String
  pub healthy_at : Time
  pub kind : String
  pub rollback_of : String
  pub emitted : List Kind

pub record Emission : Type 0 where
  pub kind : Kind
  pub event_type : String
  pub phase : String
  pub outcome : String
  pub status : String

pub record Decision : Type 0 where
  pub emits : List Emission
  pub drift : String
  pub ignore : String
  pub rolled_back : String

abbrev pub event_deploying : String
event_deploying = "dev.cdevents.environment.deploying.0.1.0"

abbrev pub event_deployed : String
event_deployed = "dev.cdevents.environment.deployed.0.1.0"

abbrev pub event_rolled_back : String
event_rolled_back = "dev.cdevents.service.rolledback.0.2.0"

abbrev pub em_deploying : Emission
em_deploying = record {
  kind = deploying;
  event_type = event_deploying;
  phase = "Syncing";
  outcome = "in_progress";
  status = "Syncing";
}

abbrev pub em_success : Emission
em_success = record {
  kind = deployed_success;
  event_type = event_deployed;
  phase = "Succeeded";
  outcome = "success";
  status = "Succeeded";
}

abbrev pub em_failure : Emission
em_failure = record {
  kind = deployed_failure;
  event_type = event_deployed;
  phase = "Failed";
  outcome = "failure";
  status = "Failed";
}

abbrev pub em_rolled_back : Emission
em_rolled_back = record {
  kind = rolledback;
  event_type = event_rolled_back;
  phase = "RolledBack";
  outcome = "rolled_back";
  status = "RolledBack";
}

unfoldable pub terminal : State → Bool
terminal healthy = true
terminal aborted = true
terminal degraded = true
terminal superseded = true
terminal rolled_back = true
terminal closed = true
terminal _ = false

-- The phases that `reduce` tells apart.
pub data Phase : Type 0 where
  progressing paused healthy degraded : Phase
  other : String → Phase

unfoldable pub phase_text : Phase → String
phase_text Phase.progressing = "Progressing"
phase_text Phase.paused = "Paused"
phase_text Phase.healthy = "Healthy"
phase_text Phase.degraded = "Degraded"
phase_text (Phase.other s) = s

-- The part of a fact that the reducer reads: `f.Status`.
pub record Status : Type 0 where
  pub phase : Phase
  pub message : String
  pub abort : Bool
  pub current_pod_hash : String
