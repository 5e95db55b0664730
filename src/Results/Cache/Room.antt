-- ===== src/Results/Cache/Room.antt =====
-- What `set` of results/cache.go drops to make room: at least one entry of a full cache, and nothing else
-- changes.
use glidepath.Prelude.{
  ℕ, suc, ◌≤◌, ◌<◌, String, ◌≡◌, refl, sym, ap, ◌∙◌, Bool, ◌||◌, [], ◌∷◌, Option, some, none, ◌==◌,
  eq_iff, ltb, length, keep, length-keep-le, All, Bool-cases, inl, inr, ◌⊎◌, arith,
}
use glidepath.Prelude.Dict.{Dict, lookup, insert, remove, lookup-remove}
use glidepath.Prelude.Dict.Keys.{IsMap, IsMap-remove}
use glidepath.Prelude.Dict.Sorted.{lookup-keep, IsMap-keep, passed}
use glidepath.Results.Cache.{Entry, is_live, is_before, oldest_in, room_for, max_entries}

module _ {V : Type 0} where
  pub length-insert :
      (k : String) (e : Entry V) (c : Dict (Entry V)) → length (insert k e c) ≤ suc (length c)
  unfolding insert
  length-insert k e [] = omega arith
  length-insert k e (f ∷ c) = ground (arith, length-insert k e c)

  length-remove-le : (k : String) (c : Dict (Entry V)) → length (remove k c) ≤ length c
  unfolding remove
  length-remove-le k [] = omega arith
  length-remove-le k (f ∷ c) = ground (arith, length-remove-le k c)

  length-remove :
      (k : String) (e : Entry V) (c : Dict (Entry V))
      → lookup k c ≡ some e
      → length (remove k c) < length c
  unfolding remove lookup
  length-remove k e [] h = absurd cc
  length-remove k e (f ∷ c) h = elim (Bool-cases (k == f.0)) [
    | inl here ↦ rw here (omega (arith, length-remove-le k c))
    | inr other ↦ rw other (ground (arith, h, other, length-remove k e c))
  ]

  -- The loop for the oldest entry ends with a key of the map.
  oldest_in-present :
      (c es : Dict (Entry V)) (k : String)
      → All (λ (e : String × Entry V). (x : Entry V) × (lookup e.0 c ≡ some x)) es
      → (x : Entry V) × (lookup k c ≡ some x)
      → (x : Entry V) × (lookup (oldest_in c es k) c ≡ some x)
  unfolding oldest_in
  oldest_in-present c [] k h p = p
  oldest_in-present c (e ∷ es) k h p =
      elim (Bool-cases ((k == "") || is_before e.1.exp (lookup k c))) [
        | inl on ↦ rw on (oldest_in-present c es e.0 h.1 h.0)
        | inr off ↦ rw off (oldest_in-present c es k h.1 p)
      ]

  lookup-here : (e : String × Entry V) (d : Dict (Entry V)) → lookup e.0 (e ∷ d) ≡ some e.1
  unfolding lookup
  lookup-here e d = rw ((eq_iff e.0 e.0).1 refl) refl

  lookup-later :
      (k : String) (x : Entry V) (e : String × Entry V) (d : Dict (Entry V))
      → lookup e.0 d ≡ none
      → lookup k d ≡ some x
      → lookup k (e ∷ d) ≡ some x
  unfolding lookup
  lookup-later k x e d n f = elim (Bool-cases (k == e.0)) [
    | inl here ↦
        absurd (ground (arith, sym n ∙ ap (λ j. lookup j d) (sym ((eq_iff k e.0).0 here)) ∙ f))
    | inr other ↦ rw other f
  ]

  oldest_in-start :
      (c es : Dict (Entry V)) (e : String × Entry V) → oldest_in c (e ∷ es) "" ≡ oldest_in c es e.0
  unfolding oldest_in
  oldest_in-start c es e = refl

  -- Every entry of a map is found under its key.
  entries_present :
      (c d : Dict (Entry V))
      → IsMap d
      → ((k : String) (x : Entry V) → lookup k d ≡ some x → lookup k c ≡ some x)
      → All (λ (e : String × Entry V). (x : Entry V) × (lookup e.0 c ≡ some x)) d
  entries_present c [] m h = tt
  entries_present c (e ∷ d) m h = (
    (e.1, h e.0 e.1 (lookup-here e d)),
    entries_present c d m.1 (λ k x f. h k x (lookup-later k x e d m.0 f)),
  )

  -- The oldest entry of a map that is not empty is dropped.
  length-drop_oldest :
      (c : Dict (Entry V))
      → IsMap c
      → 0 < length c
      → length (remove (oldest_in c c "") c) < length c
  length-drop_oldest [] m h = absurd (omega (arith, h))
  length-drop_oldest (e ∷ c) m h =
      let all = entries_present (e ∷ c) (e ∷ c) m (λ k x f. f) in
      let (x, f) = oldest_in-present (e ∷ c) c e.0 all.1 all.0 in
      rw (oldest_in-start (e ∷ c) c e) (length-remove (oldest_in (e ∷ c) c e.0) x (e ∷ c) f)

  pub IsMap-room_for : (now : ℕ) (c : Dict (Entry V)) → IsMap c → IsMap (room_for now c)
  IsMap-room_for now c m = elim (Bool-cases (ltb (length c) max_entries)) [
    | inl small ↦ rw small m
    | inr full ↦ rw full (elim (Bool-cases (ltb (length (keep (is_live now) c)) max_entries)) [
      | inl few ↦ rw few (IsMap-keep (is_live now) c m)
      | inr many ↦ rw many (IsMap-remove _ _ (IsMap-keep (is_live now) c m))
    ])
  ]

  pub length-room_for :
      (now : ℕ) (c : Dict (Entry V))
      → IsMap c
      → length c ≤ max_entries
      → length (room_for now c) < max_entries
  length-room_for now c m h = elim (Bool-cases (ltb (length c) max_entries)) [
    | inl small ↦ rw small (ground (arith, small))
    | inr full ↦
        let live = keep (is_live now) c in
        rw full (elim (Bool-cases (ltb (length live) max_entries)) [
          | inl few ↦ rw few (ground (arith, few))
          | inr many ↦ rw many (
              ground (
                arith,
                many,
                h,
                length-keep-le (is_live now) c,
                length-drop_oldest live (IsMap-keep (is_live now) c m),
              ))
        ])
  ]

  -- Gone or as it was.
  abbrev pub IsLeft : Option (Entry V) → Option (Entry V) → Type 0
  IsLeft a b = (a ≡ none) ⊎ (a ≡ b)

  pub IsLeft-trans : (a b c : Option (Entry V)) → IsLeft a b → IsLeft b c → IsLeft a c
  IsLeft-trans a b c (inl n) h = inl n
  IsLeft-trans a b c (inr e) (inl n) = inl (e ∙ n)
  IsLeft-trans a b c (inr e) (inr f) = inr (e ∙ f)

  passed-IsLeft :
      (p : String × Entry V → Bool) (k : String) (o : Option (Entry V)) → IsLeft (passed p k o) o
  passed-IsLeft p k none = inl refl
  passed-IsLeft p k (some e) = elim (Bool-cases (p (k, e))) [
    | inl on ↦ inr (rw on refl)
    | inr off ↦ inl (rw off refl)
  ]

  keep-IsLeft :
      (p : String × Entry V → Bool) (k : String) (c : Dict (Entry V))
      → IsMap c
      → IsLeft (lookup k (keep p c)) (lookup k c)
  keep-IsLeft p k c m = rw (lookup-keep p k c m) (passed-IsLeft p k (lookup k c))

  remove-IsLeft : (j k : String) (c : Dict (Entry V)) → IsLeft (lookup k (remove j c)) (lookup k c)
  remove-IsLeft j k c = elim (Bool-cases (j == k)) [
    | inl on ↦ inl (lookup-remove j k c ∙ rw on refl)
    | inr off ↦ inr (lookup-remove j k c ∙ rw off refl)
  ]

  -- Room is made by dropping entries, and nothing else.
  pub room_for-IsLeft :
      (now : ℕ) (c : Dict (Entry V)) (k : String)
      → IsMap c
      → IsLeft (lookup k (room_for now c)) (lookup k c)
  room_for-IsLeft now c k m = elim (Bool-cases (ltb (length c) max_entries)) [
    | inl small ↦ rw small (inr refl)
    | inr full ↦
        let live = keep (is_live now) c in
        rw full (elim (Bool-cases (ltb (length live) max_entries)) [
          | inl few ↦ rw few (keep-IsLeft (is_live now) k c m)
          | inr many ↦ rw many (
              IsLeft-trans _ (lookup k live) _ (remove-IsLeft (oldest_in live live "") k live)
                (keep-IsLeft (is_live now) k c m))
        ])
  ]
