-- ===== src/Relay/Record/Saved.antt =====
-- `persistState` and `stateFromRecord` of glidepath-relay/facts.go: what is written is read back.
use Prim.Native.String.{◌++◌ as text_append}
use text.Mathlib.TextLemmas.{cons-append, nil-append}
use glidepath.Prelude.{
  zero, suc, ◌*◌, ◌/◌, ◌<◌, String, ◌≡◌, ◌≢◌, refl, ap, ◌∙◌, Bool, true, false, ◌&&◌, ◌||◌, arith,
  ◌==◌, eq_iff, eqb, if◌then◌else◌, List, [], ◌∷◌, Bool-cases, inl, inr, All, map, not,
}
use glidepath.Prelude.Text.{join, split, contains}
use glidepath.Prelude.Dict.{Dict, insert, text_at, text_at-insert}
use glidepath.Prelude.Order.{text_order}
use glidepath.Prelude.Sort.{any, sort_by, any-sort_by, All-sort_by}
use glidepath.Relay.Reducer.{
  Time, State, state_text, Kind, deploying, unknown, kind_text, has, same_kind, RelState, proposed,
}
use glidepath.Relay.Record.{
  ConfigMap, state_of, kind_of, Mode, emitted_key, shadow, emit, read_kinds, state_from_record,
  stamp, persist_state, texts,
}
use glidepath.Relay.Record.Times.{TimeText, second, end_of_years}

-- A state that a record can hold: a text beside the constants is none of them, and not empty.
abbrev pub IsStored : State → Type 0
IsStored (State.other s) = (state_of s ≡ State.other s) × (s ≢ "")
IsStored _ = Unit

state_of-state_text : (s : State) → IsStored s → state_of (state_text s) ≡ s
unfolding state_of state_text
state_of-state_text (State.other s) h = h.0
state_of-state_text proposed h = refl
state_of-state_text _ h = refl

state_text-ne-empty : (s : State) → IsStored s → state_text s == "" ≡ false
unfolding state_text
state_text-ne-empty (State.other s) h = ground (arith, h.1, eq_iff s "")
state_text-ne-empty proposed h = refl
state_text-ne-empty _ h = refl

-- A kind that a record can hold: likewise, and its text has no comma.
abbrev pub IsListed : Kind → Type 0
IsListed (unknown s) = (kind_of s ≡ unknown s) × (s ≢ "") × (contains b',' s ≡ false)
IsListed _ = Unit

kind_of-kind_text : (k : Kind) → IsListed k → kind_of (kind_text k) ≡ k
unfolding kind_of kind_text
kind_of-kind_text (unknown s) h = h.0
kind_of-kind_text deploying h = refl
kind_of-kind_text _ h = refl

-- A word of the stored list: not empty, and without the separator.
abbrev IsWord : String → Type 0
IsWord s = (s == "" ≡ false) × (contains b',' s ≡ false)

IsWord-kind_text : (k : Kind) → IsListed k → IsWord (kind_text k)
unfolding kind_text contains
IsWord-kind_text (unknown s) h = (ground (arith, h.1, eq_iff s ""), h.2)
IsWord-kind_text deploying h = (refl, refl)
IsWord-kind_text _ h = (refl, refl)

-- Joined at commas and split again.
split-clean : (s : String) → contains b',' s ≡ false → split b',' s ≡ s ∷ []
unfolding split contains
split-clean String.[] h = refl
split-clean (String.◌∷◌ c s) h =
    let rest : contains b',' s ≡ false = ground arith in ground (arith, split-clean s rest)

split-append :
    (s t : String)
    → contains b',' s ≡ false
    → split b',' (text_append s (String.◌∷◌ "," t)) ≡ s ∷ split b',' t
unfolding split contains
split-append String.[] t h = rw nil-append refl
split-append (String.◌∷◌ c s) t h = rw cons-append (ground (arith, split-append s t))

split-join : (ws : List String) → All IsWord ws → ws ≢ [] → split b',' (join "," ws) ≡ ws
unfolding join
split-join [] h n = absurd (n refl)
split-join (w ∷ []) h n = split-clean w h.0.1
split-join (w ∷ v ∷ r) h n =
    rw (cons-append, nil-append)
      (split-append w (join "," (v ∷ r)) h.0.1 ∙ ap (λ l. w ∷ l) (split-join (v ∷ r) h.1 (λ e. cc)))

same_kind-eq : (a b : Kind) → same_kind a b ≡ true → a ≡ b
same_kind-eq (unknown s) (unknown t) h = ap unknown ((eq_iff s t).0 h)
same_kind-eq deploying b h = ground arith
same_kind-eq a b h = ground arith

-- The kinds that a stored word marks.
abbrev marks_kind : Kind → String → Bool
marks_kind k w = not (w == "") && same_kind (kind_of w) k

has-read_kinds :
    (k : Kind) (ws : List String) (ks : List Kind)
    → has k (read_kinds ws ks) ≡ (has k ks || any (marks_kind k) ws)
unfolding read_kinds
has-read_kinds k [] ks = ground arith
has-read_kinds k (w ∷ ws) ks = elim (Bool-cases (w == "")) [
  | inl blank ↦ rw (blank, has-read_kinds k ws ks) refl
  | inr word ↦ elim (Bool-cases (has (kind_of w) ks)) [
    | inl old ↦
        rw (word, old, has-read_kinds k ws ks)
          (elim (Bool-cases (same_kind (kind_of w) k)) [
            | inl e ↦
                let here : has k ks ≡ true = rw (← same_kind-eq (kind_of w) k e) old in rw here refl
            | inr e ↦ rw e refl
          ])
    | inr new ↦ rw (word, new, has-read_kinds k ws (kind_of w ∷ ks)) (ground arith)
  ]
]

any-kind_text :
    (k : Kind) (ks : List Kind) → All IsListed ks → any (marks_kind k) (map kind_text ks) ≡ has k ks
any-kind_text k [] h = refl
any-kind_text k (j ∷ ks) h =
    rw ((IsWord-kind_text j h.0).0, kind_of-kind_text j h.0, any-kind_text k ks h.1) refl

All-words : (ks : List Kind) → All IsListed ks → All IsWord (map kind_text ks)
All-words [] h = tt
All-words (k ∷ ks) h = (IsWord-kind_text k h.0, All-words ks h.1)

has-stored :
    (k : Kind) (ws : List String)
    → All IsWord ws
    → has k (read_kinds (split b',' (join "," ws)) []) ≡ any (marks_kind k) ws
unfolding join split
has-stored k [] h = has-read_kinds k ("" ∷ []) []
has-stored k (w ∷ ws) h =
    ap (λ l. has k (read_kinds l [])) (split-join (w ∷ ws) h (λ e. cc))
    ∙ has-read_kinds k (w ∷ ws) []

has-sorted :
    (k : Kind) (ks : List Kind)
    → All IsListed ks
    → has k (read_kinds (split b',' (join "," (sort_by text_order (λ w. w) (map kind_text ks)))) [])
      ≡ has k ks
has-sorted k ks h =
    has-stored k (sort_by text_order (λ w. w) (map kind_text ks))
      (All-sort_by text_order (λ w. w) IsWord (map kind_text ks) (All-words ks h))
    ∙ any-sort_by text_order (λ w. w) (marks_kind k) (map kind_text ks)
    ∙ any-kind_text k ks h

abbrev is_list_key : String → Bool
is_list_key j = ("emittedLive" == j) || ("emittedShadow" == j)

-- The list of kinds stands beside the other entries.
text_at-beside :
    (mode : Mode) (j v : String) (m : Dict String)
    → is_list_key j ≡ false
    → text_at j (insert (emitted_key mode) v m) ≡ text_at j m
text_at-beside emit j v m h = rw text_at-insert (ground arith)
text_at-beside shadow j v m h = rw text_at-insert (ground arith)

text_at-list :
    (mode : Mode) (v : String) (m : Dict String)
    → text_at (emitted_key mode) (insert (emitted_key mode) v m) ≡ v
text_at-list emit v m = rw text_at-insert refl
text_at-list shadow v m = rw text_at-insert refl

-- A write that may be left out.
text_at-if :
    (b : Bool) (j k v : String) (m : Dict String)
    → text_at j (if b then m else insert k v m)
      ≡ (if b then text_at j m else if k == j then v else text_at j m)
text_at-if true j k v m = refl
text_at-if false j k v m = text_at-insert k j v m

if_same : (b : Bool) (s : String) → (if b then s else s) ≡ s
if_same true s = refl
if_same false s = refl

ruleset laws = (text_at-if, text_at-insert, if_same)

module _ (time : TimeText) where
  open time use {parse, parse-empty, parse-format}

  parse-stamp : (t : Time) → t < end_of_years → parse (stamp time t) ≡ t / second * second
  unfolding stamp
  parse-stamp zero h = parse-empty
  parse-stamp (suc t) h = parse-format (suc t) h

  -- The entries before the list of kinds is written.
  abbrev saved : ConfigMap → RelState → Dict String
  saved cm st =
      let d = texts time cm st in
      if eqb st.healthy_at 0 then d else insert "healthyAt" (stamp time st.healthy_at) d

  -- What is read from a written record: the state as it was, each time cut to the second, and the
  -- kinds of this mode, no matter in which order; the first healthy time of before where none was
  -- given; and the release's own kind and target.
  pub record IsRestored (cm : ConfigMap) (st t : RelState) : Type 0 where
    pub state : t.state ≡ st.state
    pub state_at : t.state_at ≡ st.state_at / second * second
    pub last_fact_at : t.last_fact_at ≡ st.last_fact_at / second * second
    pub last_fact_phase : t.last_fact_phase ≡ st.last_fact_phase
    pub pod_hash : t.pod_hash ≡ st.pod_hash
    pub drift : t.drift ≡ st.drift
    pub last_error : t.last_error ≡ st.last_error
    pub healthy_at : t.healthy_at ≡ (
        if eqb st.healthy_at 0
        then parse (text_at "healthyAt" cm.entries)
        else st.healthy_at / second * second)
    pub kind : t.kind ≡ text_at "kind" cm.entries
    pub rollback_of : t.rollback_of ≡ text_at "rollbackOf" cm.entries
    pub emitted : (k : Kind) → has k t.emitted ≡ has k st.emitted

  -- For a storable state with times before the year 10000, `stateFromRecord` reads back what
  -- `persistState` wrote in the same mode: the state and every text, the times cut to the second,
  -- and the same set of sent kinds; a first healthy time of zero leaves the stored one.
  pub state_from_record-persist_state :
      (cm : ConfigMap) (mode : Mode) (st : RelState)
      → IsStored st.state
      → All IsListed st.emitted
      → st.state_at < end_of_years
      → st.last_fact_at < end_of_years
      → st.healthy_at < end_of_years
      → IsRestored cm st (state_from_record time (persist_state time cm mode st) mode)
  unfolding state_from_record persist_state
  state_from_record-persist_state cm mode st s l a b c = record {
    state =
        rw (beside "state" refl)
          (simp laws (rw (state_text-ne-empty st.state s) (state_of-state_text st.state s)));
    state_at = rw (beside "stateAt" refl) (simp laws (parse-stamp st.state_at a));
    last_fact_at = rw (beside "lastFactAt" refl) (simp laws (parse-stamp st.last_fact_at b));
    last_fact_phase = rw (beside "lastFactPhase" refl) (simp laws);
    pod_hash = rw (beside "podHash" refl) (simp laws);
    drift = rw (beside "drift" refl) (simp laws);
    last_error = rw (beside "lastError" refl) (simp laws);
    healthy_at =
        rw (beside "healthyAt" refl) (simp laws (ground (arith, parse-stamp st.healthy_at c)));
    kind = rw (beside "kind" refl) (simp laws);
    rollback_of = rw (beside "rollbackOf" refl) (simp laws);
    emitted = λ k. rw text_at-list (has-sorted k st.emitted l);
  }
    where
      beside :
          (j : String)
          → is_list_key j ≡ false
          → text_at j (persist_state time cm mode st).entries ≡ text_at j (saved cm st)
      beside j h = text_at-beside mode j _ (saved cm st) h
