-- ===== src/Events/Store/Items.antt =====
-- The buffered items of events/store.go under `prune` and the sorted insertion of `Add`.
use glidepath.Prelude.{
  ℕ, ◌≤◌, String, ◌≡◌, refl, Bool, true, false, ◌||◌, List, [], ◌∷◌, arith, ◌==◌, eq_iff, ltb,
  if◌then◌else◌, length, Bool-cases, inl, inr,
}
use glidepath.Prelude.Order.{text_order}
use glidepath.Prelude.Sort.{Sorted, any}
use glidepath.Prelude.Search.{
  insert_sorted, insert_after, insert_sorted-insert_after, Sorted-insert_sorted,
}
use glidepath.Events.Store.{Item, Time, is_seen, forget, prune_loop}

abbrev pub by_id : Item → String
by_id it = it.id

-- Whether an item with this key is buffered.
abbrev pub holds : String → List Item → Bool
holds k = any (λ it. it.key == k)

-- No key twice.
abbrev pub Distinct : List Item → Type 0
Distinct [] = Unit
Distinct (it ∷ rest) = (holds it.key rest ≡ false) × Distinct rest

-- `seen` holds exactly the keys of the items.
abbrev pub Tracks : List String → List Item → Type 0
Tracks seen items = (k : String) → is_seen k seen ≡ holds k items

pub is_seen-forget :
    (j k : String) (seen : List String)
    → is_seen j (forget k seen) ≡ (if k == j then false else is_seen j seen)
unfolding is_seen forget
is_seen-forget j k [] = ground arith
is_seen-forget j k (i ∷ seen) =
    ground (arith, is_seen-forget j k seen, eq_iff i k, eq_iff i j, eq_iff k j)

holds-at :
    (it : Item) (rest : List Item) (k : String)
    → holds it.key rest ≡ false
    → it.key == k ≡ true
    → holds k rest ≡ false
holds-at it rest k h e = let same : it.key ≡ k = (eq_iff it.key k).0 e in rw (← same) h

Tracks-forget :
    (seen : List String) (it : Item) (rest : List Item)
    → holds it.key rest ≡ false
    → Tracks seen (it ∷ rest)
    → Tracks (forget it.key seen) rest
Tracks-forget seen it rest d t k =
    ground (arith, is_seen-forget k it.key seen, holds-at it rest k d, t k)

-- What pruning keeps of the buffer.
pub record IsPruned (max : ℕ) (p : List Item × List String) : Type 0 where
  pub sorted : Sorted text_order by_id p.0
  pub distinct : Distinct p.0
  pub tracks : Tracks p.1 p.0
  pub fits : length p.0 ≤ max

pub prune_loop-IsPruned :
    (cut : Time) (max : ℕ) (items : List Item) (seen : List String)
    → Sorted text_order by_id items
    → Distinct items
    → Tracks seen items
    → IsPruned max (prune_loop cut max items seen)
unfolding prune_loop
prune_loop-IsPruned cut max [] seen s d t = record {
  sorted = s;
  distinct = d;
  tracks = t;
  fits = omega arith;
}
prune_loop-IsPruned cut max (it ∷ rest) seen s d t =
    elim (Bool-cases (ltb it.received_at cut || ltb max (length (it ∷ rest)))) [
      | inl out ↦ rw out (
          prune_loop-IsPruned cut max rest (forget it.key seen) s.1 d.1
            (Tracks-forget seen it rest d.0 t))
      | inr stays ↦ rw stays (record { sorted = s; distinct = d; tracks = t; fits = ground arith })
    ]

holds-insert_after :
    (k : String) (it : Item) (items : List Item)
    → holds k (insert_after text_order by_id it items) ≡ holds k (it ∷ items)
unfolding insert_after
holds-insert_after k it [] = refl
holds-insert_after k it (x ∷ xs) = ground (arith, holds-insert_after k it xs)

Distinct-insert_after :
    (it : Item) (items : List Item)
    → holds it.key items ≡ false
    → Distinct items
    → Distinct (insert_after text_order by_id it items)
unfolding insert_after
Distinct-insert_after it [] h d = (refl, tt)
Distinct-insert_after it (x ∷ xs) h d = ground (
  arith,
  holds-insert_after x.key it xs,
  Distinct-insert_after it xs,
  eq_iff x.key it.key,
  eq_iff it.key x.key,
)

module _ (it : Item) (items : List Item) (sorted : Sorted text_order by_id items)
    (new : holds it.key items ≡ false) where
  abbrev pub inserted : List Item
  inserted = insert_sorted text_order by_id it items

  pub Sorted-inserted : Sorted text_order by_id inserted
  Sorted-inserted = Sorted-insert_sorted text_order by_id it items sorted

  pub insert_sorted-Distinct : Distinct items → Distinct inserted
  insert_sorted-Distinct d =
      rw (insert_sorted-insert_after text_order by_id it items sorted)
        (Distinct-insert_after it items new d)

  pub insert_sorted-Tracks :
      (seen : List String) → Tracks seen items → Tracks (it.key ∷ seen) inserted
  unfolding is_seen
  insert_sorted-Tracks seen t k =
      rw (insert_sorted-insert_after text_order by_id it items sorted)
        (ground (arith, holds-insert_after k it items, t k))
