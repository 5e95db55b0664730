-- ===== src/Live/Stream/Changes.antt =====
-- The changes that `poll` of live/stream.go sends take a viewer from what it saw to what is there.
use glidepath.Prelude.{
  String, ◌≡◌, refl, sym, ap, ◌∙◌, Bool, true, false, List, [], ◌∷◌, ◌++◌, Option, some, none, ◌==◌,
  eq_iff, keep, map, All, Bool-cases, inl, inr,
}
use glidepath.Prelude.Dict.{Dict, lookup, insert, remove, lookup-insert, lookup-remove}
use glidepath.Prelude.Dict.Keys.{IsMap}
use glidepath.Prelude.Dict.Sorted.{
  passed, lookup-by_keys, IsMap-by_keys, lookup-keep, IsMap-keep, eq_sym,
}
use glidepath.Prelude.Order.{text_order}
use glidepath.Prelude.Sort.{All-sort_by}
use glidepath.Live.Stream.{
  Obj, key, Change, by_key, is_moved, is_gone, upsert_of, delete_of, changes, apply_change,
  apply_all,
}

-- An entry under its object's own key, as `poll` makes each.
abbrev pub HasOwnKey : String × Obj → Type 0
HasOwnKey e = e.0 ≡ key e.1

abbrev pub IsKeyed : Dict Obj → Type 0
IsKeyed d = All HasOwnKey d × IsMap d

All-keep {ℓ κ} :
    {A : Type ℓ} (P : A → Type κ) (p : A → Bool) (xs : List A) → All P xs → All P (keep p xs)
All-keep P p [] h = h
All-keep P p (x ∷ xs) h = elim (Bool-cases (p x)) [
  | inl on ↦ rw on (h.0, All-keep P p xs h.1)
  | inr off ↦ rw off (All-keep P p xs h.1)
]

-- The entries that a loop of `poll` keeps are still under their own keys.
pub IsKeyed-keep :
    (p : String × Obj → Bool) (d : Dict Obj) → IsKeyed d → IsKeyed (keep p (by_key d))
IsKeyed-keep p d h = (
  All-keep HasOwnKey p (by_key d)
      (All-sort_by text_order (λ (e : String × Obj). e.0) HasOwnKey d h.0),
  IsMap-keep p (by_key d) (IsMap-by_keys d h.1),
)

pub lookup-kept :
    (p : String × Obj → Bool) (k : String) (d : Dict Obj)
    → IsKeyed d
    → lookup k (keep p (by_key d)) ≡ passed p k (lookup k d)
lookup-kept p k d h =
    lookup-keep p k (by_key d) (IsMap-by_keys d h.1) ∙ ap (passed p k) (lookup-by_keys k d h.1)

-- What a change makes of an object: an upsert replaces it, a deletion drops it.
abbrev pub or_else : Option Obj → Option Obj → Option Obj
or_else none o = o
or_else (some x) o = some x

abbrev pub without : Option Obj → Option Obj → Option Obj
without none o = o
without (some x) o = none

pub apply_all-append :
    (cs ds : List Change) (v : Dict Obj) → apply_all (cs ++ ds) v ≡ apply_all ds (apply_all cs v)
unfolding apply_all
apply_all-append [] ds v = refl
apply_all-append (c ∷ cs) ds v = apply_all-append cs ds (apply_change c v)

pub apply_all-upserts :
    (k : String) (es : Dict Obj) (v : Dict Obj)
    → IsKeyed es
    → lookup k (apply_all (map upsert_of es) v) ≡ or_else (lookup k es) (lookup k v)
unfolding apply_all apply_change lookup
apply_all-upserts k [] v h = refl
apply_all-upserts k (e ∷ es) v h =
    apply_all-upserts k es (insert (key e.1) e.1 v) (h.0.1, h.1.1) ∙ elim (Bool-cases (k == e.0)) [
      | inl here ↦
          let same : k ≡ e.0 = (eq_iff k e.0).0 here in
          let gone : lookup k es ≡ none = rw same h.1.0 in
          let own : (key e.1 == k) ≡ true = (eq_iff (key e.1) k).1 (sym h.0.0 ∙ sym same) in
          rw (here, gone, lookup-insert (key e.1) k e.1 v, own) refl
      | inr other ↦
          let own : (key e.1 == k) ≡ false = rw (← h.0.0) (eq_sym k e.0 other) in
          rw (other, lookup-insert (key e.1) k e.1 v, own) refl
    ]

apply_all-deletes :
    (k : String) (es : Dict Obj) (v : Dict Obj)
    → IsKeyed es
    → lookup k (apply_all (map delete_of es) v) ≡ without (lookup k es) (lookup k v)
unfolding apply_all apply_change lookup
apply_all-deletes k [] v h = refl
apply_all-deletes k (e ∷ es) v h =
    apply_all-deletes k es (remove (key e.1) v) (h.0.1, h.1.1) ∙ elim (Bool-cases (k == e.0)) [
      | inl here ↦
          let same : k ≡ e.0 = (eq_iff k e.0).0 here in
          let gone : lookup k es ≡ none = rw same h.1.0 in
          let own : (key e.1 == k) ≡ true = (eq_iff (key e.1) k).1 (sym h.0.0 ∙ sym same) in
          rw (here, gone, lookup-remove (key e.1) k v, own) refl
      | inr other ↦
          let own : (key e.1 == k) ≡ false = rw (← h.0.0) (eq_sym k e.0 other) in
          rw (other, lookup-remove (key e.1) k v, own) refl
    ]

abbrev pub version_of : Option Obj → Option String
version_of none = none
version_of (some o) = some o.version

-- Two maps with the same objects in the same versions.
abbrev pub IsAgreed : Dict Obj → Dict Obj → Type 0
IsAgreed a b = (k : String) → version_of (lookup k a) ≡ version_of (lookup k b)

-- One key's changes.
agreed_at :
    (k : String) (old now : Dict Obj) (v : Option Obj)
    → version_of v ≡ version_of (lookup k old)
    → version_of (
        without
          (passed (is_gone now) k (lookup k old))
          (or_else (passed (is_moved old) k (lookup k now)) v))
      ≡ version_of (lookup k now)
agreed_at k old now v h = by_entries (lookup k old) (lookup k now) refl refl h
  where
    by_entries :
        (a b : Option Obj)
        → lookup k old ≡ a
        → lookup k now ≡ b
        → version_of v ≡ version_of a
        → version_of (without (passed (is_gone now) k a) (or_else (passed (is_moved old) k b) v))
          ≡ version_of b
    by_entries none none p q g = g
    by_entries none (some o) p q g = rw p refl
    by_entries (some x) none p q g = rw q refl
    by_entries (some x) (some o) p q g = elim (Bool-cases (x.version == o.version)) [
      | inl on ↦ rw (p, q, on) (g ∙ ap some ((eq_iff x.version o.version).0 on))
      | inr off ↦ rw (p, q, off) refl
    ]

-- The changes of a poll take any view of what was sent last to a view of what is listed now, object
-- by object and version by version.
pub apply_all-changes :
    (old now view : Dict Obj)
    → IsKeyed old
    → IsKeyed now
    → IsAgreed view old
    → IsAgreed (apply_all (changes old now) view) now
unfolding changes
apply_all-changes old now view ho hn h k =
    let us = keep (is_moved old) (by_key now) in
    let ds = keep (is_gone now) (by_key old) in
    let read : lookup k (apply_all (changes old now) view)
        ≡ without (lookup k ds) (or_else (lookup k us) (lookup k view)) =
      ap (lookup k) (apply_all-append (map upsert_of us) (map delete_of ds) view)
      ∙ apply_all-deletes k ds (apply_all (map upsert_of us) view)
          (IsKeyed-keep (is_gone now) old ho)
      ∙ ap (without (lookup k ds))
          (apply_all-upserts k us view (IsKeyed-keep (is_moved old) now hn)) in
    rw (read, lookup-kept (is_gone now) k old ho, lookup-kept (is_moved old) k now hn)
      (agreed_at k old now (lookup k view) (h k))
