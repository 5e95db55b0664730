-- ===== src/Results/Cache/Fresh.antt =====
-- The cache of results/cache.go is bounded and never answers with an older value.
use glidepath.Prelude.{
  ℕ, ◌+◌, ◌≤◌, String, ◌≡◌, refl, ap, ◌∙◌, List, [], ◌∷◌, ◌++◌, Option, some, none, ◌==◌, eq_iff,
  ltb, length, if◌then◌else◌, Bool-cases, inl, inr, ◌⊎◌, arith,
}
use glidepath.Prelude.Dict.{Dict, lookup, lookup-insert}
use glidepath.Prelude.Dict.Keys.{IsMap, IsMap-insert}
use glidepath.Results.Cache.{Entry, Write, read, get, room_for, entry_of, set, set_all, max_entries}
use glidepath.Results.Cache.Room.{
  IsLeft-trans, length-insert, IsMap-room_for, length-room_for, room_for-IsLeft,
}

module _ {V : Type 0} where
  -- What a cache that drops nothing would have under a key.
  abbrev pub last_written : String → List (Write V) → Option (Entry V) → Option (Entry V)
  last_written k [] o = o
  last_written k (w ∷ ws) o = last_written k ws (if w.key == k then some (entry_of w) else o)

  -- A cache of at most the bound, in which each entry is the newest of its key.
  pub record IsCache (c : Dict (Entry V)) (o : String → Option (Entry V)) : Type 0 where
    pub map : IsMap c
    pub bound : length c ≤ max_entries
    pub same : (k : String) → (lookup k c ≡ none) ⊎ (lookup k c ≡ o k)

  lookup-set : (w : Write V) (c : Dict (Entry V)) → lookup w.key (set w c) ≡ some (entry_of w)
  unfolding set
  lookup-set w c =
      lookup-insert w.key w.key (entry_of w) (room_for w.now c)
      ∙ rw ((eq_iff w.key w.key).1 refl) refl

  IsCache-set :
      (w : Write V) (c : Dict (Entry V)) (o : String → Option (Entry V))
      → IsCache c o
      → IsCache (set w c) (λ k. if w.key == k then some (entry_of w) else o k)
  unfolding set
  IsCache-set w c o h =
      let room = room_for w.now c in
      record {
        map = IsMap-insert w.key (entry_of w) room (IsMap-room_for w.now c h.map);
        bound =
            omega
              (arith, length-insert w.key (entry_of w) room, length-room_for w.now c h.map h.bound);
        same = λ k. elim (Bool-cases (w.key == k)) [
          | inl on ↦ inr (lookup-insert w.key k (entry_of w) room ∙ rw on refl)
          | inr off ↦
              elim (IsLeft-trans _ (lookup k c) (o k) (room_for-IsLeft w.now c k h.map)
                (h.same k)) [
                  | inl n ↦ inl (lookup-insert w.key k (entry_of w) room ∙ rw off n)
                  | inr q ↦ inr (lookup-insert w.key k (entry_of w) room ∙ rw off q)
                ]
        ];
      }

  IsCache-set_all :
      (ws : List (Write V)) (c : Dict (Entry V)) (o : String → Option (Entry V))
      → IsCache c o
      → IsCache (set_all ws c) (λ k. last_written k ws (o k))
  unfolding set_all
  IsCache-set_all [] c o h = h
  IsCache-set_all (w ∷ ws) c o h = IsCache-set_all ws (set w c) _ (IsCache-set w c o h)

  set_all-append :
      (vs ws : List (Write V)) (c : Dict (Entry V))
      → set_all (vs ++ ws) c ≡ set_all ws (set_all vs c)
  unfolding set_all
  set_all-append [] ws c = refl
  set_all-append (v ∷ vs) ws c = set_all-append vs ws (set v c)

  -- After any writes and one more, the cache has at most 4,000 entries; a read of any key at any time finds
  -- nothing or what the newest write of that key left, if it has not expired; and a read of the key
  -- that was written last always finds its value until it expires.
  pub set_all-IsFresh :
      (ws : List (Write V)) (w : Write V) (k : String) (now : ℕ)
      → let all = ws ++ w ∷ [] in
        let c = set_all all [] in
        (length c ≤ 4000)
        × ((get now k c ≡ none) ⊎ (get now k c ≡ read now (last_written k all none)))
        × (get now w.key c ≡ (if ltb (w.now + w.ttl) now then none else some w.value))
  unfolding get set_all
  set_all-IsFresh ws w k now =
      let all = ws ++ w ∷ [] in
      let c = set_all all [] in
      let h =
        IsCache-set_all all [] (λ j. none)
          (record { map = tt; bound = omega arith; same = λ j. inl (unfold lookup in refl) }) in
      (
        h.bound,
        elim (h.same k) [ inl n ↦ inl (ap (read now) n) | inr q ↦ inr (ap (read now) q) ],
        ap (λ d. read now (lookup w.key d)) (set_all-append ws (w ∷ []) [])
            ∙ ap (read now) (lookup-set w (set_all ws [])),
      )
