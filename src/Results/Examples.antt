-- ===== src/Results/Examples.antt =====
-- A cache with three writes of two keys.
use glidepath.Prelude.{
  ℕ, ◌+◌, ◌≤◌, String, ◌≡◌, List, [], ◌∷◌, ◌++◌, some, none, ltb, length, ◌⊎◌, if◌then◌else◌,
}
use glidepath.Results.Cache.{Write, read, get, set_all}
use glidepath.Results.Cache.Fresh.{last_written, set_all-IsFresh}

abbrev write : ℕ → String → ℕ → Write ℕ
write now key value = record { now = now; key = key; value = value; ttl = 5 }

abbrev first_writes : List (Write ℕ)
first_writes = write 1 "run-1" 10 ∷ write 2 "run-2" 20 ∷ []

set_all-IsFresh_example :
    let all = first_writes ++ write 3 "run-1" 11 ∷ [] in
    let c = set_all all [] in
    (length c ≤ 4000)
    × ((get 4 "run-2" c ≡ none) ⊎ (get 4 "run-2" c ≡ read 4 (last_written "run-2" all none)))
    × (get 4 "run-1" c ≡ (if ltb (3 + 5) 4 then none else some 11))
set_all-IsFresh_example = set_all-IsFresh first_writes (write 3 "run-1" 11) "run-2" 4
