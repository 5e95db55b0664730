-- ===== src/Events/Store/Reads.antt =====
-- Which events `collect` of events/store.go answers a read with.
use Prim.Native.Nat.{◌-◌}
use Prim.Native.String.{◌++◌ as text_append}
use glidepath.Prelude.{
  ℕ, ◌+◌, ◌≤◌, ◌<◌, ◌≡◌, ◌≢◌, refl, ap, String, true, false, ◌||◌, ◌&&◌, List, [], ◌∷◌, ◌++◌, arith,
  ltb, eqb, ◌==◌, eq_iff, length, length-drop, drop, Bool-cases, Option-cases, inl, inr, ◌⊎◌, map,
  keep, zero, suc,
}
use glidepath.Prelude.Text.{has_prefix, strip_prefix}
use glidepath.Prelude.Text.Cuts.{strip_prefix-some, strip_prefix-append}
use glidepath.Prelude.Order.{text_le}
use glidepath.Events.Store.{
  Envelope, Item, Filter, matches, Store, Resume, id_time_or_zero, includes, newest, collect,
}

-- The filter asks for the item's app, or for any, and for types that start as the item's does.
pub record IsFor (f : Filter) (it : Item) : Type 0 where
  pub app : (f.app ≡ "") ⊎ (it.app ≡ f.app)
  pub rest : String
  pub typ : it.typ ≡ text_append f.type_prefix rest

-- A read that resumes nothing gets every item; one that resumes at a time gets what was received
-- later; and one that resumes at an id gets what has another id and either a later one, or was
-- received no longer than the grace before that id's time.
pub data IsDue (r : Resume) (it : Item) : Type 0 where
  from_start : r.after_id ≡ "" → r.after ≡ 0 → IsDue r it
  from_time : r.after_id ≡ "" → r.after < it.received_at → IsDue r it
  from_id : r.after_id ≢ "" → it.id ≢ r.after_id → text_le it.id r.after_id ≡ false → IsDue r it
  in_grace :
      r.after_id ≢ ""
      → it.id ≢ r.after_id
      → id_time_or_zero r.after_id ≤ it.received_at + r.grace
      → IsDue r it

-- The envelopes of exactly the items that a read without a limit is for, in their order.
pub data IsAnswer (f : Filter) (r : Resume) : List Item → List Envelope → Type 0 where
  nothing : IsAnswer f r [] []
  taken :
      {it : Item} {its : List Item} {es : List Envelope}
      → IsFor f it
      → IsDue r it
      → IsAnswer f r its es
      → IsAnswer f r (it ∷ its) (it.envelope ∷ es)
  passed :
      {it : Item} {its : List Item} {es : List Envelope}
      → (¬ IsFor f it) ⊎ (¬ IsDue r it)
      → IsAnswer f r its es
      → IsAnswer f r (it ∷ its) es

has_prefix-cases :
    (p s : String)
    → ((has_prefix p s ≡ true) × ((rest : String) × (s ≡ text_append p rest)))
      ⊎ ((has_prefix p s ≡ false) × ((rest : String) → s ≢ text_append p rest))
unfolding has_prefix
has_prefix-cases p s = elim (Option-cases (strip_prefix p s)) [
  | inr (rest, e) ↦ rw (has_prefix, e) (inl (refl, (rest, strip_prefix-some p s rest e)))
  | inl e ↦
      rw (has_prefix, e)
        (inr (
          refl,
          λ rest same.
              absurd (ground (arith, e, ap (strip_prefix p) same, strip_prefix-append p rest)),
        ))
]

matches_lem :
    (f : Filter) (it : Item)
    → ((matches f it ≡ true) × IsFor f it) ⊎ ((matches f it ≡ false) × (¬ IsFor f it))
unfolding matches
matches_lem f it = elim (Bool-cases ((f.app == "") || (it.app == f.app))) [
  | inr e ↦
      rw e
        (inr (refl, λ h. absurd (ground (arith, e, h.app, eq_iff f.app "", eq_iff it.app f.app))))
  | inl e ↦ elim (has_prefix-cases f.type_prefix it.typ) [
    | inr (p, other) ↦ rw (e, p) (inr (refl, λ h. other h.rest h.typ))
    | inl (p, (rest, same)) ↦
        rw (e, p)
          (inl (
            refl,
            record {
              app = ground (arith, e, eq_iff f.app "", eq_iff it.app f.app);
              rest = rest;
              typ = same;
            },
          ))
  ]
]

includes-IsDue : (r : Resume) (it : Item) → includes r it ≡ true → IsDue r it
unfolding includes
includes-IsDue r it h = elim (Bool-cases (r.after_id == "")) [
  | inl e ↦ elim (Bool-cases (eqb r.after 0)) [
    | inl z ↦ from_start (ground (arith, e, eq_iff r.after_id "")) (ground (arith, z))
    | inr z ↦ from_time (ground (arith, e, eq_iff r.after_id "")) (ground (arith, h, e, z))
  ]
  | inr e ↦ elim (Bool-cases (text_le it.id r.after_id)) [
    | inr later ↦
        from_id (ground (arith, e, eq_iff r.after_id ""))
          (ground (arith, h, e, eq_iff it.id r.after_id)) later
    | inl old ↦
        in_grace (ground (arith, e, eq_iff r.after_id ""))
          (ground (arith, h, e, eq_iff it.id r.after_id)) (ground (arith, h, e, old))
  ]
]

IsDue-includes : (r : Resume) (it : Item) → IsDue r it → includes r it ≡ true
unfolding includes
IsDue-includes r it (from_start e z) = ground (arith, e, z, eq_iff r.after_id "")
IsDue-includes r it (from_time e later) = ground (arith, e, later, eq_iff r.after_id "")
IsDue-includes r it (from_id e other later) =
    ground (arith, e, other, later, eq_iff r.after_id "", eq_iff it.id r.after_id)
IsDue-includes r it (in_grace e other near) =
    ground (arith, e, other, near, eq_iff r.after_id "", eq_iff it.id r.after_id)

keep-IsAnswer :
    (f : Filter) (r : Resume) (its : List Item)
    → IsAnswer f r its
        (map (λ (it : Item). it.envelope) (keep (λ it. matches f it && includes r it) its))
keep-IsAnswer f r [] = nothing
keep-IsAnswer f r (it ∷ its) = elim (matches_lem f it) [
  | inr (m, other) ↦ rw m (passed (inl other) (keep-IsAnswer f r its))
  | inl (m, own) ↦ elim (Bool-cases (includes r it)) [
    | inl due ↦ rw (m, due) (taken own (includes-IsDue r it due) (keep-IsAnswer f r its))
    | inr late ↦
        rw (m, late)
          (passed (inr λ d. absurd (ground (arith, late, IsDue-includes r it d)))
            (keep-IsAnswer f r its))
  ]
]

-- `out` is all of `all`, or its last `limit` ones, when it has more than a limit that is given.
pub data IsNewest {A : Type 0} (limit : ℕ) (all : List A) : List A → Type 0 where
  whole : (limit ≡ 0) ⊎ (length all ≤ limit) → IsNewest limit all all
  last :
      (older out : List A)
      → 0 < limit
      → limit < length all
      → older ++ out ≡ all
      → length out ≡ limit
      → IsNewest limit all out

drop-suffix : {A : Type 0} (n : ℕ) (xs : List A) → (older : List A) × (older ++ drop n xs ≡ xs)
drop-suffix zero xs = ([], refl)
drop-suffix (suc n) [] = ([], refl)
drop-suffix (suc n) (x ∷ xs) = let (older, e) = drop-suffix n xs in (x ∷ older, ap (λ l. x ∷ l) e)

newest-IsNewest : {A : Type 0} (limit : ℕ) (all : List A) → IsNewest limit all (newest limit all)
newest-IsNewest limit all = elim (Bool-cases (ltb 0 limit && ltb limit (length all))) [
  | inl more ↦
      let (older, e) = drop-suffix (length all - limit) all in
      rw more (
        last older (drop (length all - limit) all) (ground (arith, more)) (ground (arith, more)) e
          (ground (arith, more, length-drop (length all - limit) all)))
  | inr few ↦ rw few (whole (ground (arith, few)))
]

-- A read of the buffer is, without a limit, the envelopes of exactly the items that its filter and
-- its resume ask for, in the buffer's order; with a limit that they exceed, it is the last of them,
-- as many as the limit.
pub collect-IsAnswer :
    (s : Store) (f : Filter) (r : Resume) (limit : ℕ)
    → (all : List Envelope) × IsAnswer f r s.items all × IsNewest limit all (collect s f r limit)
unfolding collect
collect-IsAnswer s f r limit =
    let all =
      map (λ (it : Item). it.envelope) (keep (λ it. matches f it && includes r it) s.items) in
    (all, keep-IsAnswer f r s.items, newest-IsNewest limit all)
