-- ===== src/Events/Store.antt =====
-- glidepath/api/internal/events/store.go: one replica's buffer of events and its live streams. Each
-- method holds the store's lock throughout, so it is one step from state to state. A time is a
-- number of nanoseconds since Go's zero time.
pub mod Items
pub mod Invariant
pub mod Streams
pub mod Reads
use Prim.Native.Char.{code}
use Prim.Native.Nat.{◌*◌, ◌-◌}
use glidepath.Prelude.{
  ℕ, zero, suc, ◌+◌, String, Bool, true, false, ◌&&◌, ◌||◌, not, List, [], ◌∷◌, ◌++◌, Option, some,
  none, ◌==◌, ltb, leb, eqb, if◌then◌else◌, length, drop, keep, map,
}
use glidepath.Prelude.Text.{has_prefix}
use glidepath.Prelude.Order.{text_order, text_le}
use glidepath.Prelude.Search.{insert_sorted}

abbrev pub Time : Type 0
Time = ℕ

pub record Envelope : Type 0 where
  pub id : String
  pub app : String
  pub routing_key : String
  pub received_at : Time
  pub event : String

-- The part of a CDEvent that the store reads: `context.id`, `.source` and `.type`.
pub record Header : Type 0 where
  pub context_id : String
  pub source : String
  pub typ : String

-- `item`: an envelope with its dedupe key and type.
pub record Item : Type 0 where
  pub envelope : Envelope
  pub open envelope use *
  pub key : String
  pub typ : String

-- What the store takes from elsewhere: the JSON reader of headers, the length of a text in bytes,
-- and the hash that turns a source and an id into a key.
pub record Codec : Type 0 where
  pub decode : String → Option Header
  pub size : String → ℕ
  pub hash : String → String → String

module _ (c : Codec) where
  open c use {decode, size, hash}

  abbrev check_header : Header → Option Header
  check_header h =
      if (h.context_id == "") || ((h.source == "") || (h.typ == ""))
      then none
      else if ltb 256 (size h.context_id) || (ltb 512 (size h.source) || ltb 256 (size h.typ))
      then none
      else some h

  unfoldable pub parse_header : String → Option Header
  parse_header raw = elim (decode raw) [ none ↦ none | some h ↦ check_header h ]

  -- The item that `Add` makes of an envelope; none where the event has no valid header.
  abbrev item_of : Envelope → Option Header → Option Item
  item_of e none = none
  item_of e (some h) = some (record { envelope = e; key = hash h.source h.context_id; typ = h.typ })

  unfoldable pub to_item : Envelope → Option Item
  unfolding parse_header
  to_item e = item_of e (parse_header e.event)

-- "" selects every app, and every type.
pub record Filter : Type 0 where
  pub app : String
  pub type_prefix : String

unfoldable pub matches : Filter → Item → Bool
matches f it = ((f.app == "") || (it.app == f.app)) && has_prefix f.type_prefix it.typ

-- A stream: its queue, oldest first, as its reader has not taken it yet.
pub record Sub : Type 0 where
  pub number : ℕ
  pub filter : Filter
  pub queue : List Envelope
  pub lagged : Bool

abbrev pub sub_queue : ℕ
sub_queue = 256

-- `subs` are the live streams; `ended` those whose channel was closed, for their readers to drain.
-- `next` numbers the next stream, as its address tells a `*Sub` apart.
pub record Store : Type 0 where
  pub max : ℕ
  pub max_age : Time
  pub max_streams : ℕ
  pub items : List Item
  pub seen : List String
  pub subs : List Sub
  pub ended : List Sub
  pub closed : Bool
  pub next : ℕ

unfoldable pub is_seen : String → List String → Bool
is_seen k [] = false
is_seen k (j ∷ js) = (j == k) || is_seen k js

-- `delete(s.seen, k)`.
unfoldable pub forget : String → List String → List String
forget k [] = []
forget k (j ∷ js) = if j == k then forget k js else j ∷ forget k js

-- The loop of `prune`: the oldest go while they are past the age or there are too many. The zero
-- time bounds `now - max_age` from below, which no receive time is before.
unfoldable pub prune_loop : Time → ℕ → List Item → List String → List Item × List String
prune_loop cut max [] seen = ([], seen)
prune_loop cut max (it ∷ rest) seen =
    let dropped = prune_loop cut max rest (forget it.key seen) in
    if ltb it.received_at cut || ltb max (length (it ∷ rest)) then dropped else (it ∷ rest, seen)

unfoldable pub prune : Time → Store → Store
prune now s =
    let (items, seen) = prune_loop (now - s.max_age) s.max s.items s.seen in
    record s { items = items; seen = seen }

-- What the loop at the end of `Add` does with one stream: it is live with one more event, or
-- ended as lagging when its queue is full.
unfoldable pub offer : Item → List Sub × List Sub → Sub → List Sub × List Sub
offer it (live, gone) sub =
    if not (matches sub.filter it)
    then (sub ∷ live, gone)
    else if ltb (length sub.queue) sub_queue
    then (record sub { queue = sub.queue ++ it.envelope ∷ [] } ∷ live, gone)
    else (live, record sub { lagged = true } ∷ gone)

unfoldable pub offer_all : Item → List Sub → List Sub → List Sub × List Sub
offer_all it [] gone = ([], gone)
offer_all it (sub ∷ subs) gone = offer it (offer_all it subs gone) sub

-- `Add` once the item is known to be new and young enough.
unfoldable pub store_item : Time → Item → Store → Store
store_item now it s =
    let t = prune now (record s {
      seen = it.key ∷ s.seen;
      items = insert_sorted text_order (λ (x : Item). x.id) it s.items;
    }) in
    let (live, gone) = offer_all it t.subs t.ended in record t { subs = live; ended = gone }

-- The results of `Add`: an error, or whether the event was new.
pub data Added : Type 0 where
  invalid : Added
  known : Added
  fresh : Added

unfoldable pub add_item : Time → Option Item → Store → Store × Added
add_item now none s = (s, invalid)
add_item now (some it) s =
    if is_seen it.key s.seen
    then (s, known)
    else if ltb it.received_at (now - s.max_age)
    then (s, known)
    else (store_item now it s, fresh)

unfoldable pub add : Codec → Time → Envelope → Store → Store × Added
add c now e s = add_item now (to_item c e) s

-- The receive time that an event id carries: 16 digits of microseconds since 1970, a dash and 12
-- hexadecimal digits.
abbrev is_digit : ℕ → Bool
is_digit ch = leb b'0' ch && leb ch b'9'

abbrev is_hex : ℕ → Bool
is_hex ch = is_digit ch || (leb b'a' ch && leb ch b'f')

unfoldable pub hex_tail : ℕ → String → Bool
hex_tail zero String.[] = true
hex_tail zero (String.◌∷◌ ch s) = false
hex_tail (suc n) String.[] = false
hex_tail (suc n) (String.◌∷◌ ch s) = is_hex (code ch) && hex_tail n s

unfoldable pub id_digits : ℕ → ℕ → String → Option ℕ
id_digits zero us String.[] = none
id_digits zero us (String.◌∷◌ ch s) = if eqb (code ch) b'-' && hex_tail 12 s then some us else none
id_digits (suc n) us String.[] = none
id_digits (suc n) us (String.◌∷◌ ch s) =
    let rest = id_digits n (us * 10 + (code ch - b'0')) s in
    if is_digit (code ch) then rest else none

-- 1970 in nanoseconds.
abbrev pub unix_epoch : Time
unix_epoch = 62135596800 * 1000000000

unfoldable pub id_time : String → Option Time
unfolding id_digits hex_tail
id_time id = elim (id_digits 16 0 id) [ none ↦ none | some us ↦ some (unix_epoch + us * 1000) ]

-- Where a stream or a read starts; `after` is 0 for none.
pub record Resume : Type 0 where
  pub after_id : String
  pub after : Time
  pub grace : Time

abbrev pub is_set : Resume → Bool
is_set r = not (r.after_id == "") || not (eqb r.after 0)

-- The time that `idTime` gives, the zero time where it gives none.
abbrev pub id_time_or_zero : String → Time
id_time_or_zero id = elim (id_time id) [ none ↦ 0 | some t ↦ t ]

unfoldable pub includes : Resume → Item → Bool
includes r it =
    if not (r.after_id == "")
    then if it.id == r.after_id
      then false
      else if not (text_le it.id r.after_id)
      then true
      else not (ltb it.received_at (id_time_or_zero r.after_id - r.grace))
    else if not (eqb r.after 0)
    then ltb r.after it.received_at
    else true

-- `out[len(out)-limit:]`, when a limit is given and exceeded.
abbrev pub newest {ℓ} : {A : Type ℓ} → ℕ → List A → List A
newest limit out =
    if ltb 0 limit && ltb limit (length out) then drop (length out - limit) out else out

unfoldable pub collect : Store → Filter → Resume → ℕ → List Envelope
collect s f r limit =
    newest limit (map (λ it. it.envelope) (keep (λ it. matches f it && includes r it) s.items))

-- `Recent` prunes, and answers from what is left.
unfoldable pub recent : Time → Filter → Resume → ℕ → Store → Store × List Envelope
recent now f r limit s = let t = prune now s in (t, collect t f r limit)

pub data Subscribed : Type 0 where
  busy : Subscribed
  streaming : ℕ → List Envelope → Subscribed

abbrev pub new_sub : ℕ → Filter → Sub
new_sub n f = record { number = n; filter = f; queue = []; lagged = false }

unfoldable pub subscribe : Time → Filter → Resume → Store → Store × Subscribed
subscribe now f r s =
    if s.closed || leb s.max_streams (length s.subs)
    then (s, busy)
    else let t = if is_set r then prune now s else s in
      let replay = if is_set r then collect t f r 0 else [] in
      (record t { subs = new_sub t.next f ∷ t.subs; next = suc t.next }, streaming t.next replay)

-- `Unsubscribe`: the stream with this number, if it is live.
unfoldable pub take_out : ℕ → List Sub → List Sub → List Sub × List Sub
take_out n [] gone = ([], gone)
take_out n (sub ∷ subs) gone =
    let (live, gone') = take_out n subs gone in
    if eqb sub.number n then (live, sub ∷ gone') else (sub ∷ live, gone')

unfoldable pub unsubscribe : ℕ → Store → Store
unsubscribe n s =
    let (live, gone) = take_out n s.subs s.ended in record s { subs = live; ended = gone }

unfoldable pub streams : Store → ℕ
streams s = length s.subs

unfoldable pub close : Store → Store
close s = record s { closed = true; subs = []; ended = s.subs ++ s.ended }

-- The reader of a stream takes the oldest event of its queue, if there is one.
abbrev taken : Sub → Sub
taken sub = record sub { queue = drop 1 sub.queue }

unfoldable pub read_from : ℕ → List Sub → List Sub
read_from n [] = []
read_from n (sub ∷ subs) =
    let rest = read_from n subs in if eqb sub.number n then taken sub ∷ rest else sub ∷ rest

-- What can happen to a store, each at its time.
pub data Call : Type 0 where
  adds : Envelope → Call
  asks : Filter → Resume → ℕ → Call
  subscribes : Filter → Resume → Call
  unsubscribes : ℕ → Call
  reads : ℕ → Call
  closes : Call

pub step : Codec → Store → Time × Call → Store
step c s (now, adds e) = (add c now e s).0
step c s (now, asks f r limit) = (recent now f r limit s).0
step c s (now, subscribes f r) = (subscribe now f r s).0
step c s (now, unsubscribes n) = unsubscribe n s
step c s (now, reads n) = record s { subs = read_from n s.subs }
step c s (now, closes) = close s

pub run : Codec → Store → List (Time × Call) → Store
unfolding step
run c s [] = s
run c s (k ∷ ks) = run c (step c s k) ks

-- A replica's store as it starts.
abbrev pub empty : ℕ → Time → ℕ → Store
empty max max_age max_streams = record {
  max = max;
  max_age = max_age;
  max_streams = max_streams;
  items = [];
  seen = [];
  subs = [];
  ended = [];
  closed = false;
  next = 0;
}
