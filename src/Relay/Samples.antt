-- ===== src/Relay/Samples.antt =====
-- A release of one service, and the answers of its surroundings, for the tests of the relay.
use Prim.Native.Nat.{zero, suc}
use glidepath.Prelude.{
  ℕ, ◌*◌, ◌/◌, ◌≡◌, refl, ap, String, false, List, [], ◌∷◌, Option, some, none, ◌==◌, if◌then◌else◌,
}
use glidepath.Relay.Reducer.{Time, proposed, RelState, Status, Phase, Input, rollout, sync_failure}
use glidepath.Relay.Record.{ConfigMap, ReleaseId, ReleaseRecord}
use glidepath.Relay.Record.Times.{TimeText, second}
use glidepath.Relay.Handler.{Registry, Fact, Request, pos}

-- A text of one mark for each second.
abbrev marks : ℕ → String
marks zero = ""
marks (suc n) = String.◌∷◌ "|" (marks n)

abbrev count : String → ℕ
count String.[] = 0
count (String.◌∷◌ c s) = suc (count s)

pub count-marks : (n : ℕ) → count (marks n) ≡ n
count-marks zero = refl
count-marks (suc n) = ap suc (count-marks n)

abbrev pub tally : TimeText
tally = record {
  format = λ t. marks (t / second);
  parse = λ s. count s * second;
  parse-empty = refl;
  parse-format = λ t h. ap (λ n. n * second) (count-marks (t / second));
}

abbrev pub new_release : RelState
new_release = record {
  state = proposed;
  state_at = 0;
  last_fact_at = 0;
  last_fact_phase = "";
  pod_hash = "";
  drift = "";
  last_error = "";
  healthy_at = 0;
  kind = "rollback";
  rollback_of = "shop-41:east/prod";
  emitted = [];
}

abbrev pub at_phase : Phase → String → Status
at_phase p h = record { phase = p; message = "m"; abort = false; current_pod_hash = h }

-- A release that syncs late, rolls out, is healthy, drifts, and is healthy again.
abbrev pub history : List (Time × Input)
history =
    (1, sync_failure "no such chart")
    ∷ (2, rollout (at_phase Phase.progressing "a"))
    ∷ (3, rollout (at_phase Phase.healthy "a"))
    ∷ (4, rollout (at_phase Phase.healthy "b"))
    ∷ (5, rollout (at_phase Phase.healthy "a"))
    ∷ []

abbrev pub shop_id : ReleaseId
shop_id = record { chain = "shop-42"; cluster = "east"; env = "prod" }

abbrev pub shop_record : ConfigMap
shop_record = record {
  namespace = "app-shop-cicd";
  name = "release-tracking-shop-42";
  labels =
      ("hangar.io/subcomponent", "release-tracking")
      ∷ ("hangar.io/app", "shop")
      ∷ ("hangar.io/env", "prod")
      ∷ ("hangar.io/cluster", "east")
      ∷ [];
  entries =
      ("appNamespace", "app-shop-cicd")
      ∷ ("appName", "shop")
      ∷ ("env", "prod")
      ∷ ("cluster", "east")
      ∷ ("releaseId", "shop-42:east/prod")
      ∷ ("state", "progressing")
      ∷ ("prCreatedAt", "||")
      ∷ [];
}

-- The release before it, healthy.
abbrev pub earlier_record : ConfigMap
earlier_record = record {
  namespace = "app-shop-cicd";
  name = "release-tracking-shop-41";
  labels = shop_record.labels;
  entries =
      ("appName", "shop")
      ∷ ("env", "prod")
      ∷ ("cluster", "east")
      ∷ ("state", "healthy")
      ∷ ("prCreatedAt", "|")
      ∷ [];
}

abbrev pub cluster_get : String → String → Option ConfigMap
cluster_get ns name =
    if name == "release-tracking-shop-42"
    then some shop_record
    else if name == "release-tracking-shop-41"
    then some earlier_record
    else none

abbrev pub registry : Registry
registry = record {
  entries = some (("east", "relay-east") ∷ []);
  secret_name = λ raw. some raw;
  secret = λ name. some (("token", "t0k3n") ∷ []);
}

abbrev pub shop_fact : Fact
shop_fact = record {
  ns = "shop";
  name = "web";
  generation = pos 7;
  annotations =
      ("hangar.io/release-id", "shop-42:east/prod")
      ∷ ("hangar.io/app-namespace", "app-shop-cicd")
      ∷ [];
  status = at_phase Phase.progressing "a";
  observed_generation = "7";
}

abbrev pub shop_request : Request
shop_request = record {
  method = "POST";
  path = "/facts/east";
  authorization = "Bearer t0k3n";
  body = some "{}";
}

abbrev pub shop_release : ReleaseRecord
shop_release = record {
  app_namespace = "app-shop-cicd";
  app_name = "shop";
  env = "prod";
  cluster = "east";
  git_url = "";
  git_revision = "";
  flow_start_time = "";
  config_json = "";
  chain_id = "shop-42";
  kind = "";
  rollback_of = "";
  image = "";
}
