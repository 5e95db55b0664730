-- ===== src/Events/Examples.antt =====
-- The store run on a few events.
use glidepath.Prelude.{
  ℕ, ◌≡◌, ◌≤◌, ◌++◌, refl, String, false, not, List, [], ◌∷◌, some, length, keep, map,
  if◌then◌else◌,
}
use glidepath.Prelude.Text.{has_prefix, strip_prefix}
use glidepath.Prelude.Order.{text_le}
use glidepath.Prelude.Search.{search, insert_sorted}
use glidepath.Events.Store.{
  Time, Codec, Envelope, Item, Filter, Resume, Sub, Store, Call, adds, subscribes, reads, closes,
  asks, empty, run, add, add_item, fresh, subscribe, streaming, collect, prune, prune_loop, matches,
  offer_all, offer, store_item, is_seen, includes,
}
use glidepath.Events.Store.Invariant.{IsValid, add-IsValid, run-empty-IsValid}
use glidepath.Events.Store.Reads.{collect-IsAnswer, IsAnswer, IsNewest}
use glidepath.Events.Store.Streams.{offer_all-each, subscribe-add, with_event, lagging, is_stuck}

-- An event's text is its id.
abbrev codec : Codec
codec = record {
  decode = λ s. some (record { context_id = s; source = "tekton"; typ = "dev.cdevents.run" });
  size = λ s. 8;
  hash = λ s i. i;
}

abbrev envelope : String → Time → Envelope
envelope n t = record { id = n; app = "shop"; routing_key = "shop.run"; received_at = t; event = n }

abbrev shop_only : Filter
shop_only = record { app = "shop"; type_prefix = "dev." }

abbrev from_5 : Resume
from_5 = record { after_id = ""; after = 5; grace = 1 }

-- More events than the buffer holds, one of them twice and one out of order, and a stream.
abbrev calls : List (Time × Call)
calls =
    (10, adds (envelope "b" 10))
    ∷ (11, subscribes shop_only from_5)
    ∷ (12, adds (envelope "a" 9))
    ∷ (12, adds (envelope "a" 12))
    ∷ (13, adds (envelope "c" 13))
    ∷ (14, reads 0)
    ∷ (15, asks shop_only from_5 1)
    ∷ (16, closes)
    ∷ []

run-empty-IsValid_example : IsValid (run codec (empty 2 100 1) calls)
run-empty-IsValid_example = run-empty-IsValid codec 2 100 1 calls

abbrev one_event : Store
one_event = run codec (empty 2 100 1) ((10, adds (envelope "b" 10)) ∷ [])

one_event-IsValid : IsValid one_event
one_event-IsValid = run-empty-IsValid codec 2 100 1 ((10, adds (envelope "b" 10)) ∷ [])

add-IsValid_example :
    IsValid (add codec 12 (envelope "a" 9) one_event).0
    × ((add codec 12 (envelope "a" 9) one_event).1 ≡ fresh
        → length (add codec 12 (envelope "a" 9) one_event).0.items ≤ one_event.max)
add-IsValid_example = add-IsValid codec 12 (envelope "a" 9) one_event one_event-IsValid

abbrev item : String → Time → Item
item n t = record { envelope = envelope n t; key = n; typ = "dev.cdevents.run" }

abbrev reader : ℕ → Filter → Sub
reader n f = record { number = n; filter = f; queue = []; lagged = false }

abbrev readers : List Sub
readers = reader 0 shop_only ∷ reader 1 (record { app = "other"; type_prefix = "" }) ∷ []

offer_all-each_example : offer_all (item "b" 10) readers [] ≡ (
  map (with_event (item "b" 10)) (keep (λ s. not (is_stuck (item "b" 10) s)) readers),
  map lagging (keep (is_stuck (item "b" 10)) readers) ++ [],
)
offer_all-each_example = offer_all-each (item "b" 10) readers []

abbrev buffered : Store
buffered = record (empty 2 100 1) { items = item "b" 10 ∷ []; seen = "b" ∷ [] }

abbrev streamed : Store
streamed = record buffered { subs = reader 0 shop_only ∷ []; next = 1 }

abbrev offered : Store
offered = record streamed {
  items = item "b" 10 ∷ item "c" 12 ∷ [];
  seen = "c" ∷ "b" ∷ [];
  subs = record (reader 0 shop_only) { queue = envelope "c" 12 ∷ [] } ∷ [];
}

subscribed : subscribe 11 shop_only from_5 buffered ≡ (streamed, streaming 0 (envelope "b" 10 ∷ []))
unfolding subscribe prune prune_loop collect matches includes has_prefix strip_prefix
subscribed = refl

added : add_item 12 (some (item "c" 12)) streamed ≡ (offered, fresh)
unfolding add_item store_item prune prune_loop offer_all offer matches has_prefix strip_prefix
    is_seen insert_sorted search text_le
added = refl

subscribe-add_example :
    (rest : List Sub) × (envelope "b" 10 ∷ [] ≡ collect (prune 11 buffered) shop_only from_5 0)
    × (offered.subs
        ≡ record {
          number = 0;
          filter = shop_only;
          queue = if matches shop_only (item "c" 12) then envelope "c" 12 ∷ [] else [];
          lagged = false;
        }
          ∷ rest)
subscribe-add_example =
    subscribe-add 11 12 shop_only from_5 buffered streamed offered 0 (envelope "b" 10 ∷ [])
      (item "c" 12) refl subscribed added

collect-IsAnswer_example :
    (all : List Envelope) × IsAnswer shop_only from_5 offered.items all
    × IsNewest 1 all (collect offered shop_only from_5 1)
collect-IsAnswer_example = collect-IsAnswer offered shop_only from_5 1
