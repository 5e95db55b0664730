-- ===== src/Results/Cache.antt =====
-- glidepath/api/internal/results/cache.go: the cache of what was read, each entry until it expires. Of
-- entries that expire at the same time the first of the list is dropped, as Go's order of a map may be any.
pub mod Room
pub mod Fresh
use glidepath.Prelude.{
  ℕ, ◌+◌, String, Bool, true, false, ◌||◌, not, List, [], ◌∷◌, Option, some, none, ◌==◌, ltb,
  length, keep, if◌then◌else◌,
}
use glidepath.Prelude.Dict.{Dict, lookup, insert, remove}

-- `maxEntries`.
abbrev pub max_entries : ℕ
max_entries = 4000

-- `ttlEntry`.
pub record Entry (V : Type 0) : Type 0 where
  pub value : V
  pub exp : ℕ

-- A call of `set`, at a time.
pub record Write (V : Type 0) : Type 0 where
  pub now : ℕ
  pub key : String
  pub value : V
  pub ttl : ℕ

module _ {V : Type 0} where
  -- An entry that a read at a time finds.
  abbrev pub read : ℕ → Option (Entry V) → Option V
  read now none = none
  read now (some e) = if ltb e.exp now then none else some e.value

  -- `get`.
  unfoldable pub get : ℕ → String → Dict (Entry V) → Option V
  get now k c = read now (lookup k c)

  abbrev pub is_live : ℕ → String × Entry V → Bool
  is_live now e = not (ltb e.1.exp now)

  -- The loop for the entry that is the closest to its end, over the map's entries.
  abbrev pub is_before : ℕ → Option (Entry V) → Bool
  is_before exp none = ltb exp 0
  is_before exp (some e) = ltb exp e.exp

  unfoldable pub oldest_in : Dict (Entry V) → Dict (Entry V) → String → String
  oldest_in c [] oldest = oldest
  oldest_in c (e ∷ es) oldest =
      oldest_in c es (if (oldest == "") || is_before e.1.exp (lookup oldest c) then e.0 else oldest)

  -- What `set` drops to make room.
  abbrev pub with_room : ℕ → Dict (Entry V) → Dict (Entry V)
  with_room now c =
      let live = keep (is_live now) c in
      if ltb (length live) max_entries then live else remove (oldest_in live live "") live

  abbrev pub room_for : ℕ → Dict (Entry V) → Dict (Entry V)
  room_for now c = if ltb (length c) max_entries then c else with_room now c

  abbrev pub entry_of : Write V → Entry V
  entry_of w = record { value = w.value; exp = w.now + w.ttl }

  -- `set`.
  unfoldable pub set : Write V → Dict (Entry V) → Dict (Entry V)
  set w c = insert w.key (entry_of w) (room_for w.now c)

  pub set_all : List (Write V) → Dict (Entry V) → Dict (Entry V)
  set_all [] c = c
  set_all (w ∷ ws) c = set_all ws (set w c)
