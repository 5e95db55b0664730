-- ===== src/Live/Stream/Viewers.antt =====
-- What the viewers of a watch of live/stream.go see, over any calls of its parts.
use mathlib.Core.List.{append-nil, append_assoc}
use glidepath.Prelude.{
  ℕ, ◌≤◌, String, ◌≡◌, refl, sym, ap, ◌∙◌, Bool, true, false, not, List, [], ◌∷◌, ◌++◌, Option,
  some, none, ◌==◌, eqb, eq_iff, ltb, keep, map, length, length-append, All, arith, Bool-cases, inl,
  inr,
}
use glidepath.Prelude.Dict.{Dict, lookup, insert}
use glidepath.Prelude.Dict.Keys.{IsMap-insert}
use glidepath.Prelude.Dict.Sorted.{passed}
use glidepath.Live.Stream.{
  Obj, key, Change, listed, by_key, is_task, snapshot, view_of, upsert_of, changes, Sub, Watch,
  send, sent_to, send_all, poll, subscribe, take_out, unsubscribe, read_change, read_from, Call,
  polls, fails, subscribes, unsubscribes, reads, stops, step, run, new_watch, apply_change,
  apply_all,
}
use glidepath.Live.Stream.Changes.{
  IsKeyed, IsAgreed, HasOwnKey, IsKeyed-keep, lookup-kept, or_else, apply_all-append,
  apply_all-upserts, apply_all-changes, version_of,
}

HasOwnKey-insert : (o : Obj) (d : Dict Obj) → All HasOwnKey d → All HasOwnKey (insert (key o) o d)
unfolding insert
HasOwnKey-insert o [] h = (refl, tt)
HasOwnKey-insert o (e ∷ d) h = elim (Bool-cases (key o == e.0)) [
  | inl here ↦ rw here (sym ((eq_iff (key o) e.0).0 here), h.1)
  | inr other ↦ rw other (h.0, HasOwnKey-insert o d h.1)
]

IsKeyed-listed : (os : List Obj) (d : Dict Obj) → IsKeyed d → IsKeyed (listed os d)
unfolding listed
IsKeyed-listed [] d h = h
IsKeyed-listed (o ∷ os) d h =
    IsKeyed-listed os (insert (key o) o d) (HasOwnKey-insert o d h.0, IsMap-insert (key o) o d h.1)

listed-append : (os ps : List Obj) (d : Dict Obj) → listed (os ++ ps) d ≡ listed ps (listed os d)
unfolding listed
listed-append [] ps d = refl
listed-append (o ∷ os) ps d = listed-append os ps (insert (key o) o d)

listed-upserts : (es d : Dict Obj) → listed (map (λ e. e.1) es) d ≡ apply_all (map upsert_of es) d
unfolding listed apply_all apply_change
listed-upserts [] d = refl
listed-upserts (e ∷ es) d = listed-upserts es (insert (key e.1) e.1 d)

lookup-listed :
    (k : String) (es d : Dict Obj)
    → IsKeyed es
    → lookup k (listed (map (λ e. e.1) es) d) ≡ or_else (lookup k es) (lookup k d)
lookup-listed k es d h = ap (lookup k) (listed-upserts es d) ∙ apply_all-upserts k es d h

-- A snapshot shows every object, whichever of its two lists it is in.
snapshot-IsAgreed : (objs : Dict Obj) → IsKeyed objs → IsAgreed (view_of (snapshot objs)) objs
unfolding snapshot lookup
snapshot-IsAgreed objs h k =
    let ps = keep (λ e. not (is_task e)) (by_key objs) in
    let ts = keep is_task (by_key objs) in
    let read : lookup k (view_of (snapshot objs))
        ≡ or_else (lookup k ts) (or_else (lookup k ps) none) =
      ap (lookup k) (listed-append (map (λ e. e.1) ps) (map (λ e. e.1) ts) [])
      ∙ lookup-listed k ts (listed (map (λ e. e.1) ps) []) (IsKeyed-keep is_task objs h)
      ∙ ap (or_else (lookup k ts))
          (lookup-listed k ps [] (IsKeyed-keep (λ e. not (is_task e)) objs h)) in
    rw (read, lookup-kept is_task k objs h, lookup-kept (λ e. not (is_task e)) k objs h)
      (both (lookup k objs))
  where
    both :
        (a : Option Obj)
        → version_of
            (or_else (passed is_task k a) (or_else (passed (λ e. not (is_task e)) k a) none))
          ≡ version_of a
    both none = refl
    both (some o) = ground arith

-- A viewer of `objs`: once it has read its queue, it sees them; the queue has room for `buffer`.
pub record IsViewer (buffer : ℕ) (objs : Dict Obj) (s : Sub) : Type 0 where
  pub sees : IsAgreed (apply_all s.queue s.view) objs
  pub room : length s.queue ≤ buffer

send-queue :
    (buffer : ℕ) (cs q : List Change)
    → (send buffer cs q).1 ≡ false
    → (send buffer cs q).0 ≡ q ++ cs
unfolding send
send-queue buffer [] q h = sym (append-nil q)
send-queue buffer (c ∷ cs) q h = elim (Bool-cases (ltb (length q) buffer)) [
  | inl on ↦
      let later : (send buffer cs (q ++ c ∷ [])).1 ≡ false = ground (arith, h, on) in
      rw on (send-queue buffer cs (q ++ c ∷ []) later ∙ append_assoc q (c ∷ []) cs)
  | inr off ↦ ground (arith, h, off)
]

send-length :
    (buffer : ℕ) (cs q : List Change) → length q ≤ buffer → length (send buffer cs q).0 ≤ buffer
unfolding send
send-length buffer [] q h = h
send-length buffer (c ∷ cs) q h = elim (Bool-cases (ltb (length q) buffer)) [
  | inl on ↦
      rw on (send-length buffer cs (q ++ c ∷ []) (ground (arith, length-append q (c ∷ []), on)))
  | inr off ↦ rw off h
]

-- Every viewer that is live after a poll has queued all its changes.
IsViewer-send_all :
    (buffer : ℕ) (old now : Dict Obj) (subs gone : List Sub)
    → IsKeyed old
    → IsKeyed now
    → All (IsViewer buffer old) subs
    → All (IsViewer buffer now) (send_all buffer (changes old now) subs gone).0
unfolding send_all
IsViewer-send_all buffer old now [] gone ho hn h = tt
IsViewer-send_all buffer old now (s ∷ subs) gone ho hn h =
    one (IsViewer-send_all buffer old now subs gone ho hn h.1)
      (send buffer (changes old now) s.queue) refl
  where
    one :
        All (IsViewer buffer now) (send_all buffer (changes old now) subs gone).0
        → (r : List Change × Bool) → send buffer (changes old now) s.queue ≡ r
        → All (IsViewer buffer now) (sent_to s r (send_all buffer (changes old now) subs gone)).0
    one later (q, true) e = later
    one later (q, false) e =
        let all : q ≡ s.queue ++ changes old now =
          sym (ap (λ r. r.0) e) ∙ send-queue buffer (changes old now) s.queue (ap (λ r. r.1) e) in
        (
          record {
            sees = λ k.
                ap (λ q. version_of (lookup k (apply_all q s.view))) all
                ∙ ap (λ d. version_of (lookup k d))
                    (apply_all-append s.queue (changes old now) s.view)
                ∙ apply_all-changes old now (apply_all s.queue s.view) ho hn h.0.sees k;
            room = omega (
              arith,
              ap (λ r. length r.0) e,
              send-length buffer (changes old now) s.queue h.0.room,
            );
          },
          later,
        )

-- What holds of a watch between its steps.
pub record IsWatch (buffer : ℕ) (w : Watch) : Type 0 where
  pub keyed : IsKeyed w.objs
  pub viewers : All (IsViewer buffer w.objs) w.subs

All-take_out {ℓ} :
    (P : Sub → Type ℓ) (n : ℕ) (subs gone : List Sub) → All P subs → All P (take_out n subs gone).0
unfolding take_out
All-take_out P n [] gone h = tt
All-take_out P n (s ∷ subs) gone h = elim (Bool-cases (eqb s.number n)) [
  | inl here ↦ rw here (All-take_out P n subs gone h.1)
  | inr other ↦ rw other (h.0, All-take_out P n subs gone h.1)
]

IsViewer-read :
    (buffer : ℕ) (objs : Dict Obj) (q : List Change) (s : Sub)
    → s.queue ≡ q
    → IsViewer buffer objs s
    → IsViewer buffer objs (read_change q s)
unfolding apply_all
IsViewer-read buffer objs [] s e h = h
IsViewer-read buffer objs (c ∷ cs) s e h = record {
  sees = λ k. ap (λ q. version_of (lookup k (apply_all q s.view))) (sym e) ∙ h.sees k;
  room = omega (arith, ap length e, h.room);
}

IsViewer-read_from :
    (buffer : ℕ) (objs : Dict Obj) (n : ℕ) (subs : List Sub)
    → All (IsViewer buffer objs) subs
    → All (IsViewer buffer objs) (read_from n subs)
unfolding read_from
IsViewer-read_from buffer objs n [] h = tt
IsViewer-read_from buffer objs n (s ∷ subs) h = elim (Bool-cases (eqb s.number n)) [
  | inl here ↦
      rw here
        (IsViewer-read buffer objs s.queue s refl h.0, IsViewer-read_from buffer objs n subs h.1)
  | inr other ↦ rw other (h.0, IsViewer-read_from buffer objs n subs h.1)
]

IsWatch-step :
    (buffer : ℕ) (w : Watch) (c : Call) → IsWatch buffer w → IsWatch buffer (step buffer w c)
unfolding step poll subscribe unsubscribe apply_all
IsWatch-step buffer w (polls prs trs) h =
    let keyed = IsKeyed-listed (prs ++ trs) [] (tt, tt) in
    record {
      keyed = keyed;
      viewers =
          IsViewer-send_all buffer w.objs (listed (prs ++ trs) []) w.subs w.ended h.keyed keyed
            h.viewers;
    }
IsWatch-step buffer w fails h = h
IsWatch-step buffer w subscribes h = record {
  keyed = h.keyed;
  viewers = (record { sees = snapshot-IsAgreed w.objs h.keyed; room = omega arith }, h.viewers);
}
IsWatch-step buffer w (unsubscribes n) h = record {
  keyed = h.keyed;
  viewers = All-take_out (IsViewer buffer w.objs) n w.subs w.ended h.viewers;
}
IsWatch-step buffer w (reads n) h = record {
  keyed = h.keyed;
  viewers = IsViewer-read_from buffer w.objs n w.subs h.viewers;
}
IsWatch-step buffer w stops h = record { keyed = h.keyed; viewers = tt }

IsWatch-run :
    (buffer : ℕ) (w : Watch) (cs : List Call) → IsWatch buffer w → IsWatch buffer (run buffer w cs)
unfolding run
IsWatch-run buffer w [] h = h
IsWatch-run buffer w (c ∷ cs) h =
    IsWatch-run buffer (step buffer w c) cs (IsWatch-step buffer w c h)

-- Over any polls, reads, new and leaving viewers, from a watch as it is made: each viewer that has
-- not been ended sees, once it has read the changes in its queue, exactly the objects as the watch
-- last listed them, each in its version; and its queue never holds more than the buffer.
pub run-IsViewer :
    (buffer : ℕ) (cs : List Call)
    → let w = run buffer new_watch cs in All (IsViewer buffer w.objs) w.subs
run-IsViewer buffer cs =
    (IsWatch-run buffer new_watch cs (record { keyed = (tt, tt); viewers = tt })).viewers
