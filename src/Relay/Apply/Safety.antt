-- ===== src/Relay/Apply/Safety.antt =====
-- What `apply` of glidepath-relay/facts.go guarantees, whatever the broker, the API server and the
-- other replicas do.
use glidepath.Prelude.{
  ℕ, zero, suc, ◌+◌, String, ◌≡◌, refl, true, ◌||◌, List, [], ◌∷◌, ◌++◌, Option, some, none, arith,
  ◌==◌, if◌then◌else◌,
}
use glidepath.Prelude.Dict.{text_at}
use glidepath.Relay.Reducer.{Time, Kind, has, RelState, Emission, Decision}
use glidepath.Relay.Reducer.Emits.{Sends, Decided}
use glidepath.Relay.Record.{ConfigMap, ReleaseRecord, emit, state_from_record}
use glidepath.Relay.Record.Times.{TimeText}
use glidepath.Relay.Apply.{
  LoadResult, ready, ignore_err, bad_err, other_err, Sent, sent, unbuilt, unsent, Update, updated,
  conflict, refused, Attempt, Effect, logged, forwarded, wrote, superseding, drift_event, marking,
  Response, http_error, send_all, Round, again, done, alert, settle, after_sends, on_load, round,
  rounds, apply,
}

-- Along the effects, every state that is written lists only kinds that the state under it listed,
-- or that the broker took before.
abbrev pub Backed : List Kind → List Effect → Type 0
Backed out [] = Unit
Backed out (forwarded rec id e ∷ fx) = Backed (e.kind ∷ out) fx
Backed out (wrote cm old st ∷ fx) =
    ((k : Kind) → has k st.emitted ≡ true → (has k old.emitted || has k out) ≡ true) × Backed out fx
Backed out (_ ∷ fx) = Backed out fx

-- The kinds that the effects send, newest first.
abbrev sent_after : List Kind → List Effect → List Kind
sent_after out [] = out
sent_after out (forwarded rec id e ∷ fx) = sent_after (e.kind ∷ out) fx
sent_after out (_ ∷ fx) = sent_after out fx

Backed-append :
    (out : List Kind) (fx gx : List Effect)
    → Backed out fx
    → Backed (sent_after out fx) gx
    → Backed out (fx ++ gx)
Backed-append out [] gx p q = q
Backed-append out (forwarded rec id e ∷ fx) gx p q = Backed-append (e.kind ∷ out) fx gx p q
Backed-append out (wrote cm old st ∷ fx) gx p q = (p.0, Backed-append out fx gx p.1 q)
Backed-append out (logged e ∷ fx) gx p q = Backed-append out fx gx p q
Backed-append out (superseding cm ∷ fx) gx p q = Backed-append out fx gx p q
Backed-append out (drift_event cm a b ∷ fx) gx p q = Backed-append out fx gx p q
Backed-append out (marking cm a b ∷ fx) gx p q = Backed-append out fx gx p q

has-sent_after :
    (k : Kind) (out : List Kind) (fx : List Effect)
    → has k out ≡ true
    → has k (sent_after out fx) ≡ true
has-sent_after k out [] h = h
has-sent_after k out (forwarded rec id e ∷ fx) h =
    has-sent_after k (e.kind ∷ out) fx (ground (arith, h))
has-sent_after k out (wrote cm old st ∷ fx) h = has-sent_after k out fx h
has-sent_after k out (logged e ∷ fx) h = has-sent_after k out fx h
has-sent_after k out (superseding cm ∷ fx) h = has-sent_after k out fx h
has-sent_after k out (drift_event cm a b ∷ fx) h = has-sent_after k out fx h
has-sent_after k out (marking cm a b ∷ fx) h = has-sent_after k out fx h

-- Every kind in the first list stands in one of the other two.
abbrev Covered : List Kind → List Kind → List Kind → Type 0
Covered new old out = (k : Kind) → has k new ≡ true → (has k old || has k out) ≡ true

-- What the sending loop leaves: nothing written, and if it goes through, every kind taken.
abbrev Delivered : List Kind → List Kind → List Kind → List Effect × Option Response → Type 0
Delivered old new out (fx, r) = Backed out fx × (r ≡ none → Covered new old (sent_after out fx))

module _ (rec : ReleaseRecord) (id : String) (sends : Emission → Sent) where
  send_all-Delivered :
      (old new out : List Kind) (es : List Emission)
      → Sends old es new
      → Delivered old new out (send_all emit rec id sends es)
  unfolding send_all
  send_all-Delivered old new out [] s = (tt, λ r k h. ground (arith, s))
  send_all-Delivered old new out (e ∷ es) s =
      go (sends e) (send_all-Delivered (e.kind ∷ old) new (e.kind ∷ out) es s.1)
    where
      rest : List Effect × Option Response
      rest = send_all emit rec id sends es

      go :
          (r : Sent)
          → Delivered (e.kind ∷ old) new (e.kind ∷ out) rest
          → Delivered old new out (elim r [
            | unbuilt ↦ ([], some (http_error 500))
            | unsent ↦ ([], some (http_error 502))
            | sent ↦ (forwarded rec id e ∷ rest.0, rest.1)
          ])
      go unbuilt ih = (tt, λ r. cc)
      go unsent ih = (tt, λ r. cc)
      go sent ih =
          (ih.0, λ r k h. ground (arith, ih.1 r k h, has-sent_after k (e.kind ∷ out) rest.0))

Backed-alert :
    (out : List Kind) (cm : ConfigMap) (id : String) (dec : Decision) → Backed out (alert cm id dec)
Backed-alert out cm id dec = ground arith

Backed-settle :
    (out : List Kind) (u : Update) (cm : ConfigMap) (id : String) (old st : RelState)
    (dec : Decision)
    → Covered st.emitted old.emitted out
    → Backed out (settle u cm id old st dec).0
Backed-settle out updated cm id old st dec h = (h, ground arith)
Backed-settle out conflict cm id old st dec h = tt
Backed-settle out refused cm id old st dec h = Backed-alert out cm id dec

Backed-after_sends :
    (out old new : List Kind) (a : List Effect × Option Response) (b : List Effect × Round)
    → Delivered old new out a
    → ((o : List Kind) → Covered new old o → Backed o b.0)
    → Backed out (after_sends a b).0
Backed-after_sends out old new (fx, none) (gx, r) d s =
    Backed-append out fx gx d.0 (s (sent_after out fx) (d.1 refl))
Backed-after_sends out old new (fx, some e) (gx, r) d s = d.0

module _ (time : TimeText) (fn : RelState → Time → RelState × Decision)
    (fair : (s : RelState) (now : Time) → Decided s.emitted (fn s now)) where
  Backed-on_load :
      (a : Attempt) (id : String) (l : LoadResult) (out : List Kind)
      → Backed out (on_load time emit fn a id l).0
  Backed-on_load a id (ready rec cm) out =
      let old = state_from_record time cm emit in
      let (st, dec) = fn old a.now in
      let rel = if id == "" then text_at "releaseId" cm.entries else id in
      Backed-after_sends out old.emitted st.emitted (send_all emit rec rel a.sends dec.emits)
        (settle a.update cm rel old st dec)
        (send_all-Delivered rec rel a.sends old.emitted st.emitted out dec.emits (fair old a.now))
        (λ o c. Backed-settle o a.update cm rel old st dec c)
  Backed-on_load a id (ignore_err w) out = tt
  Backed-on_load a id (bad_err w) out = tt
  Backed-on_load a id (other_err w) out = tt

  Backed-rounds :
      (env : ℕ → Attempt) (left i : ℕ) (id : String) (out : List Kind)
      → Backed out (rounds time emit fn env left i id).0
  unfolding rounds round
  Backed-rounds env zero i id out = tt
  Backed-rounds env (suc left) i id out =
      go (on_load time emit fn (env i) id (env i).load) (Backed-on_load (env i) id (env i).load out)
        (Backed-rounds env left (i + 1))
    where
      go :
          (p : List Effect × Round)
          → Backed out p.0
          → ((id' : String) (o : List Kind) → Backed o (rounds time emit fn env left (i + 1) id').0)
          → Backed out
              (let (fx, r) = p in
                let ending : List Effect × Response = elim r [
                  | done response ↦ (fx, response)
                  | again id' ↦
                      let (gx, response) = rounds time emit fn env left (i + 1) id' in
                      (fx ++ gx, response)
                ] in
                ending).0
      go (fx, done response) b ih = b
      go (fx, again id') b ih = Backed-append out fx _ b (ih id' (sent_after out fx))

  -- In emit mode, for a reducer that records exactly what it decides to send (as `reduce` and
  -- `reduceSyncFailed` do), whatever the loads, the broker and the updates answer over the rounds of
  -- one fact: every state that is written lists only kinds that the state it replaces listed, or
  -- whose event the broker took before the write.
  pub apply-Backed : (env : ℕ → Attempt) (id : String) → Backed [] (apply time emit fn env id).0
  unfolding apply
  apply-Backed env id = Backed-rounds env 4 0 id []
