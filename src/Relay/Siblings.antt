-- ===== src/Relay/Siblings.antt =====
-- glidepath/broker/cmd/glidepath-relay/facts.go: what a release's fact does to the other releases of
-- its environment, `supersedeOlder` and `markRolledBack`.
pub mod Outdated
pub mod Effects
use glidepath.Prelude.{
  String, Bool, true, false, ◌&&◌, ◌||◌, not, List, [], ◌∷◌, Option, some, none, ◌==◌, ltb,
  if◌then◌else◌, map,
}
use glidepath.Prelude.Text.{concat}
use glidepath.Prelude.Dict.{insert, text_at}
use glidepath.Relay.Reducer.{Time, State, healthy, degraded, progressing, aborted, state_text}
use glidepath.Relay.Record.{ConfigMap, ReleaseId, parse_release_id, record_prefix}
use glidepath.Relay.Record.Times.{TimeText}

abbrev pub entry : String → ConfigMap → String
entry k cm = text_at k cm.entries

abbrev pub label : String → ConfigMap → String
label k cm = text_at k cm.labels

-- The label selector of `supersedeOlder`, on a ConfigMap of the namespace.
unfoldable pub selected : ConfigMap → ConfigMap → Bool
selected cur old =
    (old.namespace == cur.namespace)
    && ((label "hangar.io/subcomponent" old == "release-tracking")
        && ((label "hangar.io/app" old == label "hangar.io/app" cur)
            && ((label "hangar.io/env" old == label "hangar.io/env" cur)
                && (label "hangar.io/cluster" old == label "hangar.io/cluster" cur))))

-- A record written before the labels existed has none.
unfoldable pub is_unlabelled : ConfigMap → Bool
is_unlabelled cur =
    (label "hangar.io/app" cur == "")
    || ((label "hangar.io/env" cur == "") || (label "hangar.io/cluster" cur == ""))

-- The states of a release that actually ran.
unfoldable pub has_run : String → Bool
has_run s = (s == "healthy") || ((s == "progressing") || ((s == "aborted") || (s == "degraded")))

module _ (time : TimeText) where
  open time use {format, parse}

  -- Whether the loop of `supersedeOlder` reaches its `Update` for `old`.
  unfoldable pub is_older : ConfigMap → ConfigMap → Bool
  is_older cur old =
      not (old.name == cur.name)
      && (not (entry "state" old == "superseded")
          && (not (entry "state" old == "rolled-back")
              && (has_run (entry "state" old)
                  && not
                      (ltb (parse (entry "prCreatedAt" cur)) (parse (entry "prCreatedAt" old))))))

  -- The copy that is written.
  unfoldable pub superseded_by : Time → ConfigMap → ConfigMap → ConfigMap
  superseded_by now cur old = record old {
    entries =
        insert "supersededBy" (entry "releaseId" cur)
          (insert "stateAt" (format now) (insert "state" "superseded" old.entries));
  }

  supersede_loop : Time → (ConfigMap → Bool) → ConfigMap → List ConfigMap → List ConfigMap
  supersede_loop now fails cur [] = []
  supersede_loop now fails cur (old ∷ rest) =
      (if selected cur old && (is_older cur old && not (fails old))
        then superseded_by now cur old
        else old)
      ∷ supersede_loop now fails cur rest

  -- `supersedeOlder` on the cluster's ConfigMaps. `listable` says whether the list call is allowed,
  -- and `fails` which updates are refused; both are only logged.
  pub supersede_older :
      Time → Bool → (ConfigMap → Bool) → ConfigMap → List ConfigMap → List ConfigMap
  unfolding supersede_loop
  supersede_older now listable fails cur cms =
      if is_unlabelled cur || not listable then cms else supersede_loop now fails cur cms

  -- `markRolledBack` up to its `Update`: the record that it writes, if it gets that far.
  abbrev pub mark_checked : Time → ConfigMap → String → ReleaseId → ConfigMap → Option ConfigMap
  mark_checked now cur by id old =
      if not (entry "appName" old == entry "appName" cur)
        || (not (entry "env" old == id.env) || not (entry "cluster" old == id.cluster))
      then none
      else if entry "state" old == "rolled-back"
      then none
      else some (record old {
        entries =
            insert "rolledBackBy" by
              (insert "stateAt" (format now) (insert "state" "rolled-back" old.entries));
      })

  unfoldable pub mark_rolled_back :
      Time → (String → String → Option ConfigMap) → ConfigMap → String → String → Option ConfigMap
  mark_rolled_back now get cur target by = elim (parse_release_id target) [
    | none ↦ none
    | some id ↦ elim (get cur.namespace (concat (record_prefix ∷ id.chain ∷ []))) [
      | none ↦ none
      | some old ↦ mark_checked now cur by id old
    ]
  ]
