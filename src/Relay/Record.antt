-- ===== src/Relay/Record.antt =====
-- The release record of glidepath/broker/cmd/glidepath-relay/facts.go: release ids, the fields that
-- `loadRecord` checks, and the state kept under the record's keys.
pub mod Times
pub mod Ids
pub mod Saved
use Prim.Native.Nat.{zero, suc}
use glidepath.Prelude.{
  ℕ, String, Bool, true, false, ◌&&◌, ◌||◌, not, List, [], ◌∷◌, ◌++◌, Option, some, none, ◌==◌, eqb,
  if◌then◌else◌, map,
}
use glidepath.Prelude.Text.{Cut, found, missing, cut, contains, has_prefix, join, split, concat}
use glidepath.Prelude.Dict.{Dict, insert, text_at}
use glidepath.Prelude.Order.{text_order}
use glidepath.Prelude.Sort.{sort_by}
use glidepath.Relay.Reducer.{
  Time, State, proposed, merged, progressing, healthy, degraded, aborted, superseded, rolled_back,
  closed, sync_failed, state_text, Kind, deploying, deployed_success, deployed_failure, rolledback,
  unknown, kind_text, has, RelState,
}
use Times.{TimeText}

-- The parts of a Kubernetes ConfigMap that the relay reads and writes.
pub record ConfigMap : Type 0 where
  pub namespace : String
  pub name : String
  pub labels : Dict String
  pub entries : Dict String  -- `Data`

pub record ReleaseId : Type 0 where
  pub chain : String
  pub cluster : String
  pub env : String

abbrev pub split_env : String → Cut → Option ReleaseId
split_env c missing = none
split_env c (found cl e) =
    if cl == "" || (e == "" || contains b'/' e)
    then none
    else some (record { chain = c; cluster = cl; env = e })

abbrev pub split_chain : Cut → Option ReleaseId
split_chain missing = none
split_chain (found c rest) = if c == "" then none else split_env c (cut b'/' rest)

-- `parseReleaseID`: "<chain-id>:<cluster>/<env>".
unfoldable pub parse_release_id : String → Option ReleaseId
parse_release_id id = split_chain (cut b':' id)

-- The constant that a stored text names.
unfoldable pub state_of : String → State
state_of s =
    if s == "proposed"
    then proposed
    else if s == "merged"
    then merged
    else if s == "progressing"
    then progressing
    else if s == "healthy"
    then healthy
    else if s == "degraded"
    then degraded
    else if s == "aborted"
    then aborted
    else if s == "superseded"
    then superseded
    else if s == "rolled-back"
    then rolled_back
    else if s == "closed"
    then closed
    else if s == "sync-failed"
    then sync_failed
    else State.other s

unfoldable pub kind_of : String → Kind
kind_of s =
    if s == "deploying"
    then deploying
    else if s == "deployed-success"
    then deployed_success
    else if s == "deployed-failure"
    then deployed_failure
    else if s == "rolledback"
    then rolledback
    else unknown s

abbrev pub record_prefix : String
record_prefix = "release-tracking-"

-- The struct `record` of facts.go.
pub record ReleaseRecord : Type 0 where
  pub app_namespace : String
  pub app_name : String
  pub env : String
  pub cluster : String
  pub git_url : String
  pub git_revision : String
  pub flow_start_time : String
  pub config_json : String
  pub chain_id : String
  pub kind : String
  pub rollback_of : String
  pub image : String

abbrev record_of : Dict String → String → ReleaseRecord
record_of d chain = record {
  app_namespace = text_at "appNamespace" d;
  app_name = text_at "appName" d;
  env = text_at "env" d;
  cluster = text_at "cluster" d;
  git_url = text_at "gitUrl" d;
  git_revision = text_at "gitRevision" d;
  flow_start_time = text_at "flowStartTime" d;
  config_json = text_at "configJson" d;
  chain_id = chain;
  kind = text_at "kind" d;
  rollback_of = text_at "rollbackOf" d;
  image = text_at "image" d;
}

-- Why `loadRecord` fails.
pub data LoadError : Type 0 where
  bad_namespace not_found too_old misplaced : LoadError

pub data Loaded : Type 0 where
  loaded : ReleaseRecord → ConfigMap → Loaded
  failed : LoadError → Loaded

abbrev check_record : String → String → ConfigMap → Loaded
check_record ns chain cm =
    let rec = record_of cm.entries chain in
    if rec.app_namespace == "" || (rec.app_name == "" || (rec.env == "" || rec.cluster == ""))
    then failed too_old
    else if not (rec.app_namespace == ns)
    then failed misplaced
    else loaded rec cm

-- `loadRecord`: `get namespace name` is the read of a ConfigMap.
unfoldable pub load_record : (String → String → Option ConfigMap) → String → String → Loaded
load_record get ns chain =
    if not (has_prefix "app-" ns) || contains b'/' ns
    then failed bad_namespace
    else elim (get ns (concat (record_prefix ∷ chain ∷ []))) [
      | none ↦ failed not_found
      | some cm ↦ check_record ns chain cm
    ]

-- FACTS_MODE: anything but "emit" is shadow.
pub data Mode : Type 0 where
  shadow emit : Mode

abbrev pub mode_of : String → Mode
mode_of s = if s == "emit" then emit else shadow

abbrev pub emitted_key : Mode → String
emitted_key emit = "emittedLive"
emitted_key shadow = "emittedShadow"

-- The loop that marks each kind of the stored list.
unfoldable pub read_kinds : List String → List Kind → List Kind
read_kinds [] ks = ks
read_kinds (w ∷ ws) ks =
    read_kinds ws (if w == "" || has (kind_of w) ks then ks else kind_of w ∷ ks)

module _ (time : TimeText) where
  open time use {format, parse}

  -- `stateFromRecord`.
  unfoldable pub state_from_record : ConfigMap → Mode → RelState
  state_from_record cm mode =
      let d = cm.entries in
      record {
        state = if text_at "state" d == "" then proposed else state_of (text_at "state" d);
        state_at = parse (text_at "stateAt" d);
        last_fact_at = parse (text_at "lastFactAt" d);
        last_fact_phase = text_at "lastFactPhase" d;
        pod_hash = text_at "podHash" d;
        drift = text_at "drift" d;
        last_error = text_at "lastError" d;
        healthy_at = parse (text_at "healthyAt" d);
        kind = text_at "kind" d;
        rollback_of = text_at "rollbackOf" d;
        emitted = read_kinds (split b',' (text_at (emitted_key mode) d)) [];
      }

  -- The closure `ts`: no text for the zero time.
  pub stamp : Time → String
  stamp zero = ""
  stamp (suc t) = format (suc t)

  -- The keys that `persistState` always writes.
  abbrev pub texts : ConfigMap → RelState → Dict String
  texts cm st = insert "lastError" st.last_error (
      insert "drift" st.drift (
        insert "podHash" st.pod_hash (
          insert "lastFactPhase" st.last_fact_phase (
            insert "lastFactAt" (stamp st.last_fact_at) (
              insert "stateAt" (stamp st.state_at)
                (insert "state" (state_text st.state) cm.entries))))))

  -- `persistState` up to its `Update` call: the ConfigMap that it writes.
  pub persist_state : ConfigMap → Mode → RelState → ConfigMap
  persist_state cm mode st =
      let d = texts cm st in
      let h = if eqb st.healthy_at 0 then d else insert "healthyAt" (stamp st.healthy_at) d in
      record cm {
        entries =
            insert (emitted_key mode)
              (join "," (sort_by text_order (λ k. k) (map kind_text st.emitted))) h;
      }
