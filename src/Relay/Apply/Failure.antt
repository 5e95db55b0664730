-- ===== src/Relay/Apply/Failure.antt =====
-- What `apply` of glidepath-relay/facts.go has done when it answers an error.
use glidepath.Prelude.{
  ℕ, zero, suc, ◌+◌, String, ◌≡◌, List, [], ◌∷◌, ◌++◌, Option, some, none, arith, ◌==◌,
  if◌then◌else◌,
}
use glidepath.Prelude.Dict.{text_at}
use glidepath.Relay.Reducer.{Time, RelState, Emission, Decision}
use glidepath.Relay.Record.{ConfigMap, ReleaseRecord, Mode, shadow, emit, state_from_record}
use glidepath.Relay.Record.Times.{TimeText}
use glidepath.Relay.Apply.{
  LoadResult, ready, ignore_err, bad_err, other_err, Sent, Update, updated, conflict, refused,
  Attempt, Effect, logged, forwarded, wrote, superseding, drift_event, marking, Response, accepted,
  http_error, send_all, Round, again, done, settle, after_sends, on_load, round, rounds, apply,
}

-- Nothing but events went out: no state was written, nothing superseded, marked or alerted.
abbrev pub OnlyEvents : List Effect → Type 0
OnlyEvents [] = Unit
OnlyEvents (logged e ∷ fx) = OnlyEvents fx
OnlyEvents (forwarded rec id e ∷ fx) = OnlyEvents fx
OnlyEvents (_ ∷ fx) = ⊥

OnlyEvents-append : (fx gx : List Effect) → OnlyEvents fx → OnlyEvents gx → OnlyEvents (fx ++ gx)
OnlyEvents-append [] gx p q = q
OnlyEvents-append (forwarded rec id e ∷ fx) gx p q = OnlyEvents-append fx gx p q
OnlyEvents-append (logged e ∷ fx) gx p q = OnlyEvents-append fx gx p q
OnlyEvents-append (wrote cm old st ∷ fx) gx p q = absurd p
OnlyEvents-append (superseding cm ∷ fx) gx p q = absurd p
OnlyEvents-append (drift_event cm a b ∷ fx) gx p q = absurd p
OnlyEvents-append (marking cm a b ∷ fx) gx p q = absurd p

module _ (rec : ReleaseRecord) (id : String) (sends : Emission → Sent) where
  OnlyEvents-send_all :
      (mode : Mode) (es : List Emission) → OnlyEvents (send_all mode rec id sends es).0
  unfolding send_all
  OnlyEvents-send_all emit [] = tt
  OnlyEvents-send_all shadow [] = tt
  OnlyEvents-send_all emit (e ∷ es) = let ih = OnlyEvents-send_all emit es in ground (arith, ih)
  OnlyEvents-send_all shadow (e ∷ es) = let ih = OnlyEvents-send_all shadow es in ground (arith, ih)

-- A round that is not the last, or that answers an error.
abbrev Fails : List Effect × Round → Type 0
Fails (fx, again id) = OnlyEvents fx
Fails (fx, done (http_error c)) = OnlyEvents fx
Fails (fx, done (accepted why)) = Unit

Fails-settle :
    (fx : List Effect) (u : Update) (cm : ConfigMap) (id : String) (old st : RelState)
    (dec : Decision)
    → OnlyEvents fx
    → Fails (after_sends (fx, none) (settle u cm id old st dec))
Fails-settle fx updated cm id old st dec h = tt
Fails-settle fx refused cm id old st dec h = tt
Fails-settle fx conflict cm id old st dec h = OnlyEvents-append fx [] h tt

Fails-after_sends :
    (a : List Effect × Option Response) (u : Update) (cm : ConfigMap) (id : String)
    (old st : RelState) (dec : Decision)
    → OnlyEvents a.0
    → Fails (after_sends a (settle u cm id old st dec))
Fails-after_sends (fx, none) u cm id old st dec h = Fails-settle fx u cm id old st dec h
Fails-after_sends (fx, some (accepted w)) u cm id old st dec h = tt
Fails-after_sends (fx, some (http_error c)) u cm id old st dec h = h

module _ (time : TimeText) (mode : Mode) (fn : RelState → Time → RelState × Decision) where
  Fails-on_load : (a : Attempt) (id : String) (l : LoadResult) → Fails (on_load time mode fn a id l)
  Fails-on_load a id (ready rec cm) =
      let old = state_from_record time cm mode in
      let (st, dec) = fn old a.now in
      let rel = if id == "" then text_at "releaseId" cm.entries else id in
      Fails-after_sends (send_all mode rec rel a.sends dec.emits) a.update cm rel old st dec
        (OnlyEvents-send_all rec rel a.sends mode dec.emits)
  Fails-on_load a id (ignore_err w) = tt
  Fails-on_load a id (bad_err w) = tt
  Fails-on_load a id (other_err w) = tt

  rounds_error :
      (env : ℕ → Attempt) (left i : ℕ) (id : String) (c : ℕ)
      → (rounds time mode fn env left i id).1 ≡ http_error c
      → OnlyEvents (rounds time mode fn env left i id).0
  unfolding rounds round
  rounds_error env zero i id c h = tt
  rounds_error env (suc left) i id c h =
      go (on_load time mode fn (env i) id (env i).load) (Fails-on_load (env i) id (env i).load)
        (rounds_error env left (i + 1)) h
    where
      ending : List Effect × Round → List Effect × Response
      ending (fx, r) = elim r [
        | done response ↦ (fx, response)
        | again id' ↦
            let (gx, response) = rounds time mode fn env left (i + 1) id' in (fx ++ gx, response)
      ]

      go :
          (p : List Effect × Round)
          → Fails p
          → ((id' : String) (d : ℕ)
              → (rounds time mode fn env left (i + 1) id').1 ≡ http_error d
              → OnlyEvents (rounds time mode fn env left (i + 1) id').0)
          → (ending p).1 ≡ http_error c
          → OnlyEvents (ending p).0
      go (fx, done (accepted w)) f ih e = cc
      go (fx, done (http_error d)) f ih e = f
      go (fx, again id') f ih e = OnlyEvents-append fx _ f (ih id' c e)

  -- If a fact is answered with an error status, then whatever happened in its rounds, no state was
  -- written, no release superseded or marked and no drift alerted: at most events went out.
  pub apply_error :
      (env : ℕ → Attempt) (id : String) (c : ℕ)
      → (apply time mode fn env id).1 ≡ http_error c
      → OnlyEvents (apply time mode fn env id).0
  unfolding apply
  apply_error env id c = rounds_error env 4 0 id c
