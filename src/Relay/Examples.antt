-- ===== src/Relay/Examples.antt =====
-- The relay run on one service's releases.
use glidepath.Prelude.{
  ℕ, ◌≡◌, ◌<◌, refl, true, false, List, [], ◌∷◌, some, none, All, arith, ◌≢◌, inr, ◌⊎◌,
}
use Prim.Native.Nat.{zero, suc}
use glidepath.Prelude.Text.{split, contains, concat, cut, strip_prefix, has_prefix, decimal}
use glidepath.Prelude.Dict.{insert, text_at, lookup}
use glidepath.Relay.Reducer.{
  emit, Decision, on_phase, on_progressing, set_state, terminal, Time, healthy, superseded,
  deploying, deployed_success, rolledback, RelState, Phase, run, reduce, is_past,
}
use glidepath.Relay.Reducer.Emits.{Sends, run-Sends, reduce-Decided, Decided}
use glidepath.Relay.Reducer.Ordering.{InOrder, IsOrdered, run-InOrder}
use glidepath.Relay.Reducer.Lifecycle.{run_past}
use glidepath.Relay.Reducer.Healthy.{IsHonest, run-IsHonest, run-Fixed}
use glidepath.Relay.Record.{
  load_record, state_of, read_kinds, ConfigMap, parse_release_id, Mode, persist_state,
  state_from_record,
}
use glidepath.Relay.Record.Ids.{id_text, IsIdOf, parse_release_id-text, parse_release_id-some}
use glidepath.Relay.Record.Saved.{IsRestored, state_from_record-persist_state}
use glidepath.Relay.Apply.{
  Attempt, ready, sent, unsent, conflict, updated, apply, rounds, round, send_all, http_error,
}
use glidepath.Relay.Apply.Safety.{Backed, apply-Backed}
use glidepath.Relay.Apply.Failure.{OnlyEvents, apply_error}
use glidepath.Relay.Siblings.{supersede_older, mark_rolled_back}
use glidepath.Relay.Siblings.Effects.{
  Outcomes, IsMarked, supersede_older-Outcomes, supersede_older_idem, mark_rolled_back-some,
}
use glidepath.Relay.Handler.{authenticate, authentic, handle_facts, admit, facts_load, int_text}
use glidepath.Relay.Handler.Trust.{
  Holds, IsTrusted, IsOwn, authenticate-Holds, handle_facts-IsTrusted, facts_load-IsOwn,
}
use glidepath.Relay.Argo.{pick_from, in_flight, pick_from-IsLatest, IsLatest}
use glidepath.Relay.Samples.{
  tally, new_release, at_phase, history, shop_id, shop_record, earlier_record, cluster_get,
  registry, shop_fact, shop_request, shop_release,
}

run-Sends_example : Sends [] (run new_release history).1 (run new_release history).0.emitted
run-Sends_example = run-Sends new_release history

none-IsOrdered : IsOrdered []
none-IsOrdered = record {
  success_after = λ h. cc;
  failure_after = λ h. cc;
  rollback_after = λ h. cc;
}

run-InOrder_example : InOrder [] (run new_release history).1
run-InOrder_example = run-InOrder new_release history none-IsOrdered

abbrev old_release : RelState
old_release = record new_release {
  state = superseded;
  healthy_at = 9;
  emitted = deployed_success ∷ deploying ∷ [];
}

past_holds : is_past superseded ≡ true
unfolding is_past
past_holds = refl

run_past_example :
    ((run old_release history).0.state ≡ superseded)
    × ((run old_release history).0.state_at ≡ 0)
    × ((run old_release history).0.healthy_at ≡ 9)
    × ((run old_release history).0.emitted ≡ deployed_success ∷ deploying ∷ [])
    × ((run old_release history).1 ≡ [])
run_past_example = run_past old_release history past_holds

old_release-IsHonest : IsHonest old_release
old_release-IsHonest = record {
  success_state = λ h. inr past_holds;
  success_time = λ h. omega arith;
  healthy_time = λ h. omega arith;
}

history_later : All (λ i. 0 < i.0) history
history_later = (omega arith, (omega arith, (omega arith, (omega arith, (omega arith, tt)))))

run-IsHonest_example : IsHonest (run old_release history).0
run-IsHonest_example = run-IsHonest old_release history old_release-IsHonest history_later

run-Fixed_example :
    (0 < old_release.healthy_at → (run old_release history).0.healthy_at ≡ old_release.healthy_at)
    × (old_release.pod_hash ≢ "" → (run old_release history).0.pod_hash ≡ old_release.pod_hash)
run-Fixed_example = run-Fixed old_release history

east_clean : contains b'/' "east" ≡ false
unfolding contains
east_clean = refl

prod_clean : contains b'/' "prod" ≡ false
unfolding contains
prod_clean = refl

chain_clean : contains b':' "shop-42" ≡ false
unfolding contains
chain_clean = refl

parse_release_id-text_example : parse_release_id (id_text shop_id) ≡ some shop_id
parse_release_id-text_example =
    parse_release_id-text shop_id (λ e. cc) chain_clean (λ e. cc) east_clean (λ e. cc) prod_clean

shop_id_read : parse_release_id "shop-42:east/prod" ≡ some shop_id
unfolding parse_release_id cut contains
shop_id_read = refl

parse_release_id-some_example : IsIdOf "shop-42:east/prod" shop_id
parse_release_id-some_example = parse_release_id-some "shop-42:east/prod" shop_id shop_id_read

abbrev running : RelState
running = record new_release {
  state = healthy;
  state_at = 3000000007;
  last_fact_at = 4000000000;
  healthy_at = 3000000007;
  emitted = rolledback ∷ deployed_success ∷ deploying ∷ [];
}

state_from_record-persist_state_example :
    IsRestored tally shop_record running
      (state_from_record tally (persist_state tally shop_record Mode.emit running) Mode.emit)
state_from_record-persist_state_example =
    state_from_record-persist_state tally shop_record Mode.emit running tt (tt, (tt, (tt, tt)))
      (omega arith) (omega arith) (omega arith)

-- The first update conflicts; by the second the broker is away.
abbrev storm : ℕ → Attempt
storm zero = record {
  load = ready shop_release shop_record;
  now = 5;
  sends = λ e. sent;
  update = conflict;
}
storm (suc n) = record {
  load = ready shop_release shop_record;
  now = 6;
  sends = λ e. unsent;
  update = updated;
}

abbrev progress : RelState → Time → RelState × Decision
progress s now = reduce s (at_phase Phase.progressing "a") now

progress_fair : (s : RelState) (now : Time) → Decided s.emitted (progress s now)
progress_fair s now = reduce-Decided s (at_phase Phase.progressing "a") now

apply-Backed_example : Backed [] (apply tally Mode.emit progress storm "shop-42:east/prod").0
apply-Backed_example = apply-Backed tally progress progress_fair storm "shop-42:east/prod"

storm_fails : (apply tally Mode.emit progress storm "shop-42:east/prod").1 ≡ http_error 502
unfolding apply rounds round send_all reduce emit on_phase on_progressing set_state terminal
    state_of text_at lookup read_kinds split state_from_record
storm_fails = refl

apply_error_example : OnlyEvents (apply tally Mode.emit progress storm "shop-42:east/prod").0
apply_error_example = apply_error tally Mode.emit progress storm "shop-42:east/prod" 502 storm_fails

abbrev records : List ConfigMap
records = earlier_record ∷ shop_record ∷ []

supersede_older-Outcomes_example :
    Outcomes tally true
      (λ c. false)
      shop_record
      records
      (supersede_older tally 7000000000 true (λ c. false) shop_record records)
supersede_older-Outcomes_example =
    supersede_older-Outcomes tally 7000000000 true (λ c. false) shop_record records

supersede_older_idem_example :
    let done = supersede_older tally 7000000000 true (λ c. false) shop_record records in
    supersede_older tally 8000000000 true (λ c. true) shop_record done ≡ done
supersede_older_idem_example =
    supersede_older_idem tally 7000000000 8000000000 true true (λ c. true) shop_record records

abbrev rolled_record : ConfigMap
rolled_record = record earlier_record {
  entries =
      ("appName", "shop")
      ∷ ("env", "prod")
      ∷ ("cluster", "east")
      ∷ ("state", "rolled-back")
      ∷ ("prCreatedAt", "|")
      ∷ ("stateAt", "|||||||")
      ∷ ("rolledBackBy", "shop-42:east/prod")
      ∷ [];
}

marked :
    mark_rolled_back tally 7000000000 cluster_get shop_record "shop-41:east/prod"
      "shop-42:east/prod"
    ≡ some rolled_record
unfolding mark_rolled_back parse_release_id cut contains concat text_at lookup insert
marked = refl

mark_rolled_back-some_example :
    IsMarked tally cluster_get shop_record "shop-41:east/prod" "shop-42:east/prod" rolled_record
mark_rolled_back-some_example =
    mark_rolled_back-some tally 7000000000 cluster_get shop_record "shop-41:east/prod"
      "shop-42:east/prod" rolled_record marked

known_caller : authenticate registry "east" "Bearer t0k3n" ≡ authentic
unfolding authenticate strip_prefix lookup
known_caller = refl

authenticate-Holds_example : Holds registry "east" "Bearer t0k3n"
authenticate-Holds_example = authenticate-Holds registry "east" "Bearer t0k3n" known_caller

admitted_fact :
    handle_facts registry (λ b. some shop_fact) shop_request
    ≡ admit "east" "shop-42:east/prod" shop_id shop_fact
unfolding handle_facts authenticate strip_prefix lookup contains parse_release_id cut text_at
    decimal int_text
admitted_fact = refl

handle_facts-IsTrusted_example :
    (handle_facts registry (λ b. some shop_fact) shop_request
        ≡ admit "east" "shop-42:east/prod" shop_id shop_fact
      → IsTrusted registry
          (λ b. some shop_fact)
          shop_request
          "east"
          "shop-42:east/prod"
          shop_id
          shop_fact)
    × (IsTrusted registry
          (λ b. some shop_fact)
          shop_request
          "east"
          "shop-42:east/prod"
          shop_id
          shop_fact
        → handle_facts registry (λ b. some shop_fact) shop_request
          ≡ admit "east" "shop-42:east/prod" shop_id shop_fact)
handle_facts-IsTrusted_example =
    handle_facts-IsTrusted registry (λ b. some shop_fact) shop_request "east" "shop-42:east/prod"
      shop_id shop_fact

loaded_fact : facts_load cluster_get "east" shop_id shop_fact ≡ ready shop_release shop_record
unfolding facts_load load_record has_prefix contains concat text_at lookup strip_prefix
loaded_fact = refl

facts_load-IsOwn_example : IsOwn cluster_get "app-shop-cicd" "east" shop_id shop_release shop_record
unfolding text_at lookup
facts_load-IsOwn_example =
    facts_load-IsOwn cluster_get "east" shop_id shop_fact shop_release shop_record loaded_fact

abbrev young_record : ConfigMap
young_record = record earlier_record { entries = ("state", "merged") ∷ ("prCreatedAt", "|||") ∷ [] }

pick_from-IsLatest_example :
    let all = shop_record ∷ young_record ∷ records in
    ((pick_from tally none all ≡ none)
      × All (λ c. in_flight (text_at "state" c.entries) ≡ false) all)
    ⊎ ((p : ConfigMap) × (pick_from tally none all ≡ some p)
        × (in_flight (text_at "state" p.entries) ≡ true)
        × IsLatest tally p all)
pick_from-IsLatest_example = pick_from-IsLatest tally (shop_record ∷ young_record ∷ records)
