-- ===== src/Events/Store/Invariant.antt =====
-- What every method of events/store.go keeps.
use glidepath.Prelude.{
  ℕ, suc, ◌-◌, ◌≤◌, ◌<◌, ◌≡◌, refl, sym, ◌∙◌, true, false, ◌||◌, List, [], ◌∷◌, arith, ltb, leb,
  length, length-append, length-drop, drop, Bool-cases, Option-cases, inl, inr, All,
}
use glidepath.Prelude.Order.{text_order}
use glidepath.Prelude.Sort.{Sorted}
use glidepath.Events.Store.{
  Time, Envelope, Item, Codec, Filter, Sub, sub_queue, Store, is_seen, prune, offer, offer_all,
  store_item, fresh, add_item, add, to_item, Resume, is_set, recent, subscribe, take_out,
  unsubscribe, close, streams, new_sub, read_from, step, run, Call, adds, asks, subscribes,
  unsubscribes, reads, closes, empty,
}
use glidepath.Events.Store.Items.{
  by_id, holds, Distinct, Tracks, prune_loop-IsPruned, inserted, Sorted-inserted,
  insert_sorted-Distinct, insert_sorted-Tracks,
}

-- No queue is longer than its channel's buffer.
abbrev pub Fits : Sub → Type 0
Fits sub = length sub.queue ≤ sub_queue

-- The buffer is in id order with no event twice, `seen` is exactly its keys; the live streams are
-- within their limits, and a closed store has none.
pub record IsValid (s : Store) : Type 0 where
  pub sorted : Sorted text_order by_id s.items
  pub distinct : Distinct s.items
  pub tracks : Tracks s.seen s.items
  pub queues : All Fits s.subs
  pub few : length s.subs ≤ s.max_streams
  pub shut : s.closed ≡ true → s.subs ≡ []

pub prune-IsValid : (now : Time) (s : Store) → IsValid s → IsValid (prune now s)
unfolding prune
prune-IsValid now s v =
    let p =
      prune_loop-IsPruned (now - s.max_age) s.max s.items s.seen v.sorted v.distinct v.tracks in
    record {
      sorted = p.sorted;
      distinct = p.distinct;
      tracks = p.tracks;
      queues = v.queues;
      few = v.few;
      shut = v.shut;
    }

offer-Fits :
    (it : Item) (sub : Sub) (p : List Sub × List Sub)
    → Fits sub
    → All Fits p.0
    → All Fits (offer it p sub).0
unfolding offer
offer-Fits it sub (live, gone) f h = ground (arith, length-append sub.queue (it.envelope ∷ []))

offer-few :
    (it : Item) (sub : Sub) (p : List Sub × List Sub) (n : ℕ)
    → length p.0 ≤ n
    → length (offer it p sub).0 ≤ suc n
unfolding offer
offer-few it sub (live, gone) n h = ground arith

offer_all-Fits :
    (it : Item) (subs gone : List Sub)
    → All Fits subs
    → All Fits (offer_all it subs gone).0 × (length (offer_all it subs gone).0 ≤ length subs)
unfolding offer_all
offer_all-Fits it [] gone h = (tt, omega arith)
offer_all-Fits it (sub ∷ subs) gone h =
    let ih = offer_all-Fits it subs gone h.1 in
    (
      offer-Fits it sub (offer_all it subs gone) h.0 ih.0,
      offer-few it sub (offer_all it subs gone) (length subs) ih.1,
    )

store_item-IsValid :
    (now : Time) (it : Item) (s : Store)
    → is_seen it.key s.seen ≡ false
    → IsValid s
    → IsValid (store_item now it s) × (length (store_item now it s).items ≤ s.max)
unfolding store_item prune
store_item-IsValid now it s new v =
    let absent : holds it.key s.items ≡ false = sym (v.tracks it.key) ∙ new in
    let p =
      prune_loop-IsPruned (now - s.max_age) s.max (inserted it s.items v.sorted absent)
        (it.key ∷ s.seen) (Sorted-inserted it s.items v.sorted absent)
        (insert_sorted-Distinct it s.items v.sorted absent v.distinct)
        (insert_sorted-Tracks it s.items v.sorted absent s.seen v.tracks) in
    let q = offer_all-Fits it s.subs s.ended v.queues in
    (
      record {
        sorted = p.sorted;
        distinct = p.distinct;
        tracks = p.tracks;
        queues = q.0;
        few = omega (arith, v.few);
        shut = λ c. rw (v.shut c) (unfold offer_all in refl);
      },
      p.fits,
    )

-- `Add` keeps a valid store valid, and after an event that was new at most `Max` are buffered.
pub add-IsValid :
    (c : Codec) (now : Time) (e : Envelope) (s : Store)
    → IsValid s
    → IsValid (add c now e s).0
      × ((add c now e s).1 ≡ fresh → length (add c now e s).0.items ≤ s.max)
unfolding add add_item
add-IsValid c now e s v = elim (Option-cases (to_item c e)) [
  | inl n ↦ rw n (v, λ h. cc)
  | inr (it, i) ↦ elim (Bool-cases (is_seen it.key s.seen)) [
    | inl old ↦ rw (i, old) (v, λ h. cc)
    | inr new ↦ elim (Bool-cases (ltb it.received_at (now - s.max_age))) [
      | inl late ↦ rw (i, new, late) (v, λ h. cc)
      | inr young ↦
          let (w, fits) = store_item-IsValid now it s new v in rw (i, new, young) (w, λ h. fits)
    ]
  ]
]

take_out-Fits :
    (n : ℕ) (subs gone : List Sub)
    → All Fits subs
    → All Fits (take_out n subs gone).0 × (length (take_out n subs gone).0 ≤ length subs)
unfolding take_out
take_out-Fits n [] gone h = (tt, omega arith)
take_out-Fits n (sub ∷ subs) gone h =
    let ih = take_out-Fits n subs gone h.1 in ground (arith, ih.0, ih.1)

with_sub-IsValid :
    (f : Filter) (t : Store)
    → t.closed ≡ false
    → length t.subs < t.max_streams
    → IsValid t
    → IsValid (record t { subs = new_sub t.next f ∷ t.subs; next = suc t.next })
with_sub-IsValid f t o few v = record {
  sorted = v.sorted;
  distinct = v.distinct;
  tracks = v.tracks;
  queues = (omega arith, v.queues);
  few = few;
  shut = λ c. cc (c, o);
}

subscribe-IsValid :
    (now : Time) (f : Filter) (r : Resume) (s : Store) → IsValid s → IsValid (subscribe now f r s).0
unfolding subscribe prune
subscribe-IsValid now f r s v = elim (Bool-cases (s.closed || leb s.max_streams (length s.subs))) [
  | inl busy' ↦ rw busy' v
  | inr room ↦
      let o : s.closed ≡ false = ground arith in
      let few : length s.subs < s.max_streams = ground arith in
      elim (Bool-cases (is_set r)) [
        | inl yes' ↦
            rw (room, yes') (with_sub-IsValid f (prune now s) o few (prune-IsValid now s v))
        | inr no' ↦ rw (room, no') (with_sub-IsValid f s o few v)
      ]
]

unsubscribe-IsValid : (n : ℕ) (s : Store) → IsValid s → IsValid (unsubscribe n s)
unfolding unsubscribe
unsubscribe-IsValid n s v =
    let q = take_out-Fits n s.subs s.ended v.queues in
    record {
      sorted = v.sorted;
      distinct = v.distinct;
      tracks = v.tracks;
      queues = q.0;
      few = omega (arith, v.few);
      shut = λ c. rw (v.shut c) (unfold take_out in refl);
    }

read_from-Fits :
    (n : ℕ) (subs : List Sub)
    → All Fits subs
    → All Fits (read_from n subs) × (length (read_from n subs) ≡ length subs)
unfolding read_from
read_from-Fits n [] h = (tt, refl)
read_from-Fits n (sub ∷ subs) h =
    let ih = read_from-Fits n subs h.1 in
    let shorter : length (drop 1 sub.queue) ≤ sub_queue =
      omega (arith, length-drop 1 sub.queue, h.0) in
    ground (arith, ih.0, ih.1, shorter)

step-IsValid : (c : Codec) (s : Store) (k : Time × Call) → IsValid s → IsValid (step c s k)
unfolding step recent close
step-IsValid c s (now, adds e) v = (add-IsValid c now e s v).0
step-IsValid c s (now, asks f r limit) v = prune-IsValid now s v
step-IsValid c s (now, subscribes f r) v = subscribe-IsValid now f r s v
step-IsValid c s (now, unsubscribes n) v = unsubscribe-IsValid n s v
step-IsValid c s (now, reads n) v =
    let q = read_from-Fits n s.subs v.queues in
    record {
      sorted = v.sorted;
      distinct = v.distinct;
      tracks = v.tracks;
      queues = q.0;
      few = omega (arith, v.few);
      shut = λ e. rw (v.shut e) (unfold read_from in refl);
    }
step-IsValid c s (now, closes) v = record {
  sorted = v.sorted;
  distinct = v.distinct;
  tracks = v.tracks;
  queues = tt;
  few = omega arith;
  shut = λ e. refl;
}

run-IsValid : (c : Codec) (s : Store) (ks : List (Time × Call)) → IsValid s → IsValid (run c s ks)
unfolding run
run-IsValid c s [] v = v
run-IsValid c s (k ∷ ks) v = run-IsValid c (step c s k) ks (step-IsValid c s k v)

empty-IsValid : (max : ℕ) (max_age : Time) (streams : ℕ) → IsValid (empty max max_age streams)
unfolding is_seen
empty-IsValid max max_age streams = record {
  sorted = tt;
  distinct = tt;
  tracks = λ k. refl;
  queues = tt;
  few = omega arith;
  shut = λ e. refl;
}

-- After any calls, from a replica's start, at any times: the buffer is in id order and holds no
-- CDEvent twice, `seen` holds exactly the buffered keys, no stream's queue is over its channel's
-- size, the live streams are within the limit, and there are none once the store is closed.
pub run-empty-IsValid :
    (c : Codec) (max : ℕ) (max_age : Time) (streams : ℕ) (ks : List (Time × Call))
    → IsValid (run c (empty max max_age streams) ks)
run-empty-IsValid c max max_age streams ks =
    run-IsValid c (empty max max_age streams) ks (empty-IsValid max max_age streams)
