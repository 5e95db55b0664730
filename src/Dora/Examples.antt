-- ===== src/Dora/Examples.antt =====
-- The DORA exporter on the releases of two applications.
use glidepath.Prelude.{◌≡◌, refl, false, List, [], ◌∷◌, some, ℕ, All}
use glidepath.Prelude.Text.{contains}
use glidepath.Prelude.Dict.{lookup, text_at}
use glidepath.Prelude.Dict.Keys.{IsMap}
use glidepath.Dora.Exporter.{Exporter, Answers, prime}
use glidepath.Dora.Paths.{Event, outcome, application, run}
use glidepath.Dora.Paths.Restart.{run-prime, IsServed}
use glidepath.Dora.Samples.{marked, all_well, failed_release, good_release, depot, left_state}

abbrev releases : List (Answers × Event marked)
releases =
    (all_well, outcome "POST" (some failed_release))
    ∷ (all_well, outcome "POST" (some good_release))
    ∷ (all_well, application depot)
    ∷ []

abbrev started : Exporter ℕ
started = record {
  live = prime marked (some left_state);
  metrics = some left_state;
  failures = some [];
}

left_state-IsMap : IsMap left_state
unfolding lookup
left_state-IsMap = (refl, tt)

releases-IsServed : All (IsServed marked) releases
unfolding contains text_at lookup
releases-IsServed = ((refl, refl, refl), ((refl, refl, refl), ((refl, refl, refl), tt)))

no_dot : contains b'.' "team-a" ≡ false
unfolding contains
no_dot = refl

run-prime_example :
    prime marked (run marked started releases).metrics "team-a" "shop"
    ≡ (run marked started releases).live "team-a" "shop"
run-prime_example =
    run-prime marked left_state (some []) releases "team-a" "shop" left_state-IsMap
      releases-IsServed no_dot
