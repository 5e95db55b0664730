-- ===== src/Environments/Examples.antt =====
-- A rollback plan of one environment, its times as numbers of marks.
use Prim.Native.Nat.{suc}
use glidepath.Prelude.{
  ℕ, String, List, [], ◌∷◌, Option, some, none, All, ◌≡◌, ◌≤◌, ◌⊎◌, true, false, length,
}
use glidepath.Environments.Rollback.{Record, plan_rollback, has_run, current_of, at, created}
use glidepath.Environments.Rollback.Plan.{
  Distinct, LatestFirst, IsEligible, IsAmong, plan_rollback-IsEligible, plan_rollback-current,
}

abbrev count : String → ℕ
count String.[] = 0
count (String.◌∷◌ c s) = suc (count s)

abbrev times : String → Option ℕ
times s = some (count s)

abbrev release : String → String → String → Record
release n state when = record {
  name = n;
  entries =
      ("state", state)
      ∷ ("prCreatedAt", when)
      ∷ ("healthyAt", when)
      ∷ ("image", n)
      ∷ ("gitRevision", "r")
      ∷ ("gitUrl", "u")
      ∷ ("releaseId", n)
      ∷ [];
}

abbrev releases : List Record
releases =
    release "b" "superseded" "||" ∷ release "a" "superseded" "|" ∷ release "c" "healthy" "|||" ∷ []

plan_rollback-IsEligible_example :
    let p = plan_rollback times releases in
    (length p.targets ≤ 5)
    × Distinct p.targets
    × LatestFirst times p.targets
    × All (IsEligible times releases p.current) p.targets
plan_rollback-IsEligible_example = plan_rollback-IsEligible times releases

plan_rollback-current_example :
    ((plan_rollback times releases).current ≡ none)
      × All (λ r. has_run (at "state" r) ≡ false) releases
    ⊎ ((r : Record) × IsAmong releases r
        × (has_run (at "state" r) ≡ true)
        × ((plan_rollback times releases).current ≡ current_of (r ∷ []))
        × All (λ x. has_run (at "state" x) ≡ true → created times x ≤ created times r) releases)
plan_rollback-current_example = plan_rollback-current times releases
