-- ===== src/Dora/Exporter.antt =====
-- glidepath/dora-exporter/cmd/dora-exporter/main.go. A collector's value for an application is the
-- record that the exporter persists for it: a histogram is the list of its observations. This is what
-- both paths of a release share; Dora/Paths.antt has the paths.
pub mod Keys
pub mod Prime
pub mod Mirror
use glidepath.Prelude.{
  ℕ, ◌+◌, suc, ◌≡◌, String, Bool, true, false, ◌&&◌, ◌||◌, not, List, [], ◌∷◌, ◌++◌, Option, some,
  none, ◌==◌, leb, if◌then◌else◌,
}
use glidepath.Prelude.Text.{Cut, found, missing, cut, concat}
use glidepath.Prelude.Dict.{Dict, lookup, insert, text_at, remove}

-- `appMetricsState`.
pub record Metrics (F : Type 0) : Type 0 where
  pub deployments : ℕ
  pub succeeded : ℕ
  pub failed : ℕ
  pub lead_times : List F
  pub restore_times : List F

-- What the exporter takes from Go's libraries: RFC 3339 texts of times, the seconds between two
-- times, whether they are more than 0, and the JSON text of a persisted record, which reads back.
pub record Formats (F : Type 0) : Type 0 where
  pub parse : String → Option ℕ
  pub format : ℕ → String
  pub seconds : ℕ → ℕ → F
  pub is_positive : F → Bool
  pub encode : Metrics F → String
  pub decode : String → Option (Metrics F)
  pub decode-encode : (m : Metrics F) → decode (encode m) ≡ some m

-- `isTerminalPhase`.
unfoldable pub is_terminal_phase : String → Bool
is_terminal_phase p = (p == "Succeeded") || ((p == "Failed") || (p == "Error"))

-- `appStateKey`, and `splitStateKey`: the namespace ends at the first dot.
unfoldable pub app_state_key : String → String → String
app_state_key ns app = concat (ns ∷ "." ∷ app ∷ [])

unfoldable pub split_state_key : String → Option (String × String)
split_state_key key = elim (cut b'.' key) [ missing ↦ none | found ns app ↦ some (ns, app) ]

-- The collectors, by namespace and application; an application without a series counts nothing.
abbrev pub Collectors : Type 0 → Type 0
Collectors F = String → String → Metrics F

module _ {F : Type 0} where
  abbrev pub no_metrics : Metrics F
  no_metrics = record {
    deployments = 0;
    succeeded = 0;
    failed = 0;
    lead_times = [];
    restore_times = [];
  }

  -- A change of one application's series.
  unfoldable pub at_labels : String → String → (Metrics F → Metrics F) → Collectors F → Collectors F
  at_labels ns app f live a b = if (a == ns) && (b == app) then f (live a b) else live a b

  -- An entry of `primeMetricsFromState`, which is added to the collectors.
  abbrev pub added : Metrics F → Metrics F → Metrics F
  added m n = record {
    deployments = m.deployments + n.deployments;
    succeeded = m.succeeded + n.succeeded;
    failed = m.failed + n.failed;
    lead_times = m.lead_times ++ n.lead_times;
    restore_times = m.restore_times ++ n.restore_times;
  }

  abbrev pub prime_entry :
      Option (String × String) → Option (Metrics F) → Collectors F → Collectors F
  prime_entry none m live = live
  prime_entry (some labels) none live = live
  prime_entry (some (ns, app)) (some n) live = at_labels ns app (λ m. added m n) live

-- `outcomeResult`; a time that was not observed is none.
pub record OutcomeResult (F : Type 0) : Type 0 where
  pub last_failure_cleared : Bool
  pub lead_time : Option F
  pub restore_time : Option F

-- The exporter: its collectors, and the two ConfigMaps, none where they do not exist.
pub record Exporter (F : Type 0) : Type 0 where
  pub live : String → String → Metrics F
  pub metrics : Option (Dict String)
  pub failures : Option (Dict String)

-- Which calls of the API server succeed.
pub record Answers : Type 0 where
  pub reads_failures : Bool
  pub writes_failures : Bool
  pub reads_metrics : Bool
  pub writes_metrics : Bool

abbrev pub with_option {ℓ} : {F : Type ℓ} → Option F → List F → List F
with_option none xs = xs
with_option (some x) xs = xs ++ x ∷ []

-- A merge patch of one key of a ConfigMap: none removes it; a missing ConfigMap stays missing.
unfoldable pub patch_key : String → Option String → Option (Dict String) → Option (Dict String)
patch_key k v none = none
patch_key k none (some d) = some (remove k d)
patch_key k (some v) (some d) = some (insert k v d)

module _ {F : Type 0} (fm : Formats F) where
  open fm use {parse, seconds, is_positive, encode, decode}

  abbrev pub parse_time : String → Option ℕ
  parse_time s = if s == "" then none else parse s

  abbrev pub lead_of : ℕ → Option ℕ → Option F
  lead_of finished none = none
  lead_of finished (some start) = some (seconds finished start)

  abbrev pub restore_of : ℕ → Option ℕ → Option F
  restore_of finished none = none
  restore_of finished (some failure) =
      let t = seconds finished failure in if is_positive t then some t else none

  abbrev pub success_result : ℕ → String → String → OutcomeResult F
  success_result finished flow_start last_failure = record {
    last_failure_cleared = not (last_failure == "");
    lead_time = lead_of finished (parse_time flow_start);
    restore_time =
        if last_failure == "" then none else restore_of finished (parse_time last_failure);
  }

  abbrev pub no_result : OutcomeResult F
  no_result = record { last_failure_cleared = false; lead_time = none; restore_time = none }

  abbrev inc_released : Metrics F → Metrics F
  inc_released m = record m { succeeded = m.succeeded + 1; deployments = m.deployments + 1 }

  abbrev observe : OutcomeResult F → Metrics F → Metrics F
  observe r m = record m {
    lead_times = with_option r.lead_time m.lead_times;
    restore_times = with_option r.restore_time m.restore_times;
  }

  -- `recordOutcome` on the collectors.
  unfoldable pub record_outcome :
      String → String → String → ℕ → String → String → Collectors F → Collectors F × OutcomeResult F
  record_outcome ns app phase finished flow_start last_failure live =
      if phase == "Succeeded"
      then (let r = success_result finished flow_start last_failure in
          (at_labels ns app (λ m. observe r (inc_released m)) live, r))
      else if (phase == "Failed") || (phase == "Error")
      then (at_labels ns app (λ m. record m { failed = m.failed + 1 }) live, no_result)
      else (live, no_result)

  -- The `switch` of `persistMetricsState`.
  unfoldable pub counted : String → OutcomeResult F → Metrics F → Metrics F
  counted phase r m =
      if phase == "Succeeded"
      then record {
        deployments = m.deployments + 1;
        succeeded = m.succeeded + 1;
        failed = m.failed;
        lead_times = with_option r.lead_time m.lead_times;
        restore_times = with_option r.restore_time m.restore_times;
      }
      else if (phase == "Failed") || (phase == "Error")
      then record m { failed = m.failed + 1 }
      else m

  -- The entry under a key; no entry and a corrupt one count nothing.
  unfoldable pub decoded : Option String → Metrics F
  decoded none = no_metrics
  decoded (some raw) = elim (decode raw) [ none ↦ no_metrics | some m ↦ m ]

  abbrev pub stored : Option (Dict String) → String → Metrics F
  stored none key = no_metrics
  stored (some d) key = decoded (lookup key d)

  -- `persistMetricsState`, on the ConfigMap.
  unfoldable pub persist_metrics_state :
      Answers
      → String
      → String
      → String
      → OutcomeResult F
      → Option (Dict String)
      → Option (Dict String)
  persist_metrics_state api ns app phase r cm =
      if not (is_terminal_phase phase)
      then cm
      else if not api.reads_metrics || not api.writes_metrics
      then cm
      else let key = app_state_key ns app in
        patch_key key (some (encode (counted phase r (stored cm key)))) cm

  -- The loop of `primeMetricsFromState`.
  unfoldable pub prime_loop : Dict String → Collectors F → Collectors F
  prime_loop [] live = live
  prime_loop (e ∷ es) live = prime_loop es (prime_entry (split_state_key e.0) (decode e.1) live)

  -- A process that starts: `primeMetricsFromState` on new collectors.
  unfoldable pub prime : Option (Dict String) → Collectors F
  prime none ns app = no_metrics
  prime (some d) ns app = prime_loop d (λ a b. no_metrics) ns app

  -- The recording of a finished release, on both paths.
  unfoldable pub record_release :
      Answers
      → String
      → String
      → String
      → ℕ
      → String
      → String
      → Exporter F
      → Exporter F × OutcomeResult F
  record_release api ns app phase finished flow_start last_failure s =
      let (live, r) = record_outcome ns app phase finished flow_start last_failure s.live in
      (record s { live = live; metrics = persist_metrics_state api ns app phase r s.metrics }, r)
