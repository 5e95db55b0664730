-- ===== src/Events/Store/Streams.antt =====
-- What the streams of events/store.go get to see.
use glidepath.Prelude.{
  ℕ, ◌-◌, ◌≡◌, refl, ap, Bool, true, false, ◌||◌, ◌&&◌, not, List, [], ◌∷◌, ◌++◌, arith, ltb, leb,
  if◌then◌else◌, length, Bool-cases, some, inl, inr, map, keep,
}
use glidepath.Events.Store.{
  Time, Envelope, Item, Filter, Sub, sub_queue, Store, prune, matches, offer, offer_all, store_item,
  fresh, add_item, Resume, is_set, collect, subscribe, streaming, new_sub, is_seen,
}

-- A stream that the event is for and whose queue is full cannot take it.
abbrev pub is_stuck : Item → Sub → Bool
is_stuck it sub = matches sub.filter it && not (ltb (length sub.queue) sub_queue)

-- The stream with the event in its queue, if it is for it.
abbrev pub with_event : Item → Sub → Sub
with_event it sub =
    if matches sub.filter it then record sub { queue = sub.queue ++ it.envelope ∷ [] } else sub

abbrev pub lagging : Sub → Sub
lagging sub = record sub { lagged = true }

offer_lem :
    (it : Item) (sub : Sub) (live gone : List Sub)
    → offer it (live, gone) sub
      ≡ (if is_stuck it sub then (live, lagging sub ∷ gone) else (with_event it sub ∷ live, gone))
unfolding offer
offer_lem it sub live gone = ground arith

-- A new event changes each live stream by itself: one whose queue is full of unread events, and
-- that the event is for, ends as lagging; every other stays, in its place, with the event behind its
-- unread ones exactly if its filter matches. Streams that ended before are as they were.
pub offer_all-each :
    (it : Item) (subs gone : List Sub)
    → offer_all it subs gone ≡ (
      map (with_event it) (keep (λ s. not (is_stuck it s)) subs),
      map lagging (keep (is_stuck it) subs) ++ gone,
    )
unfolding offer_all
offer_all-each it [] gone = refl
offer_all-each it (sub ∷ subs) gone =
    rw (offer_all-each it subs gone) (elim (Bool-cases (is_stuck it sub)) [
      | inl s ↦ rw (offer_lem it sub _ _, s) refl
      | inr s ↦ rw (offer_lem it sub _ _, s) refl
    ])

-- What a new stream starts from, given that there is room.
record Starts (now : Time) (f : Filter) (r : Resume) (s t : Store) (n : ℕ) (replay : List Envelope)
    : Type 0 where
  subs : t.subs ≡ new_sub n f ∷ s.subs
  closed : t.closed ≡ false
  replayed : is_set r ≡ true → replay ≡ collect (prune now s) f r 0
  items : is_set r ≡ true → t.items ≡ (prune now s).items

subscribe-Starts :
    (now : Time) (f : Filter) (r : Resume) (s t : Store) (n : ℕ) (replay : List Envelope)
    → subscribe now f r s ≡ (t, streaming n replay)
    → Starts now f r s t n replay
unfolding subscribe prune
subscribe-Starts now f r s t n replay h =
    elim (Bool-cases (s.closed || leb s.max_streams (length s.subs))) [
      | inl full ↦ absurd (ground (arith, full))
      | inr room ↦ elim (Bool-cases (is_set r)) [
        | inl yes' ↦ ground (arith, room, yes')
        | inr no' ↦ ground (arith, room, no')
      ]
    ]

subs-store_item :
    (now : Time) (it : Item) (s : Store)
    → (store_item now it s).subs ≡ map (with_event it) (keep (λ x. not (is_stuck it x)) s.subs)
unfolding store_item prune
subs-store_item now it s = ap (λ p. p.0) (offer_all-each it s.subs s.ended)

fresh-add_item :
    (now : Time) (it : Item) (s u : Store)
    → add_item now (some it) s ≡ (u, fresh)
    → store_item now it s ≡ u
unfolding add_item
fresh-add_item now it s u h = elim (Bool-cases (is_seen it.key s.seen)) [
  | inl old ↦ absurd (ground (arith, old))
  | inr new ↦ elim (Bool-cases (ltb it.received_at (now - s.max_age))) [
    | inl late ↦ absurd (ground (arith, new, late))
    | inr young ↦ ground (arith, new, young)
  ]
]

with_event-new :
    (n : ℕ) (f : Filter) (it : Item)
    → (is_stuck it (new_sub n f) ≡ false)
      × (with_event it (new_sub n f) ≡ record {
        number = n;
        filter = f;
        queue = if matches f it then it.envelope ∷ [] else [];
        lagged = false;
      })
with_event-new n f it = ground arith

-- Nothing falls between a stream's replay and its first live event: if `Subscribe` with a resume
-- opens stream `n`, its replay is what the buffer held then of the filter and the resume, and the
-- next new event, whichever it is and whenever it comes, is in the stream's queue exactly if the
-- filter matches it.
pub subscribe-add :
    (now later : Time) (f : Filter) (r : Resume) (s t u : Store) (n : ℕ) (replay : List Envelope)
    (it : Item)
    → is_set r ≡ true
    → subscribe now f r s ≡ (t, streaming n replay)
    → add_item later (some it) t ≡ (u, fresh)
    → (rest : List Sub) × (replay ≡ collect (prune now s) f r 0)
      × (u.subs
          ≡ record {
            number = n;
            filter = f;
            queue = if matches f it then it.envelope ∷ [] else [];
            lagged = false;
          }
            ∷ rest)
subscribe-add now later f r s t u n replay it set h a =
    let o = subscribe-Starts now f r s t n replay h in
    let (free, sent) = with_event-new n f it in
    (
      map (with_event it) (keep (λ x. not (is_stuck it x)) s.subs),
      o.replayed set,
      rw (← fresh-add_item later it t u a, subs-store_item later it t, o.subs, free, sent) refl,
    )
