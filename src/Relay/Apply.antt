-- ===== src/Relay/Apply.antt =====
-- `apply` of glidepath/broker/cmd/glidepath-relay/facts.go: the read-modify-write of every fact.
-- What other replicas, the broker and the API server do is an answer to each call: an `Attempt`
-- holds the answers of one round, and `env i` is that of round `i`. The calls that change something
-- outside are listed in their order as effects.
pub mod Safety
pub mod Failure
use Prim.Native.Nat.{zero, suc}
use glidepath.Prelude.{
  ℕ, ◌+◌, String, Bool, true, false, List, [], ◌∷◌, ◌++◌, Option, some, none, ◌==◌, eqb,
  if◌then◌else◌,
}
use glidepath.Prelude.Dict.{text_at}
use glidepath.Relay.Reducer.{Time, RelState, Emission, Decision}
use glidepath.Relay.Record.{ConfigMap, ReleaseRecord, Mode, shadow, emit, state_from_record}
use glidepath.Relay.Record.Times.{TimeText}

-- What the loader answers: a record, "valid but nothing to do", "reject", or another error.
pub data LoadResult : Type 0 where
  ready : ReleaseRecord → ConfigMap → LoadResult
  ignore_err bad_err other_err : String → LoadResult

-- What becomes of one event, and of the write of the state.
pub data Sent : Type 0 where
  sent unbuilt unsent : Sent

pub data Update : Type 0 where
  updated conflict refused : Update

pub record Attempt : Type 0 where
  pub load : LoadResult
  pub now : Time
  pub sends : Emission → Sent
  pub update : Update

pub data Effect : Type 0 where
  -- a shadow event in the log, and an event that the broker took
  logged : Emission → Effect
  forwarded : ReleaseRecord → String → Emission → Effect
  -- the state that was read and the one that was written over it
  wrote : ConfigMap → RelState → RelState → Effect
  superseding : ConfigMap → Effect
  drift_event : ConfigMap → String → String → Effect
  marking : ConfigMap → String → String → Effect

-- 202 with its X-Fact-Ignored header ("" for none), or an error status.
pub data Response : Type 0 where
  accepted : String → Response
  http_error : ℕ → Response

-- The loop over `dec.Emits`: its effects, and the response where it returns.
unfoldable pub send_all :
    Mode
    → ReleaseRecord
    → String
    → (Emission → Sent)
    → List Emission
    → List Effect × Option Response
send_all mode rec rel_id sends [] = ([], none)
send_all shadow rec rel_id sends (e ∷ es) =
    let (fx, r) = send_all shadow rec rel_id sends es in
    elim (sends e) [
      | unbuilt ↦ ([], some (http_error 500))
      | sent ↦ (logged e ∷ fx, r)
      | unsent ↦ (logged e ∷ fx, r)
    ]
send_all emit rec rel_id sends (e ∷ es) =
    let (fx, r) = send_all emit rec rel_id sends es in
    elim (sends e) [
      | unbuilt ↦ ([], some (http_error 500))
      | unsent ↦ ([], some (http_error 502))
      | sent ↦ (forwarded rec rel_id e ∷ fx, r)
    ]

-- How a round ends: `continue` on a conflict, with the release id that it settled on, or a response.
pub data Round : Type 0 where
  again : String → Round
  done : Response → Round

abbrev pub alert : ConfigMap → String → Decision → List Effect
alert cm rel_id dec =
    (if dec.drift == "" then [] else drift_event cm rel_id dec.drift ∷ [])
    ++ (if dec.rolled_back == "" then [] else marking cm dec.rolled_back rel_id ∷ [])

-- The end of a round, after the events went out.
abbrev pub settle :
    Update → ConfigMap → String → RelState → RelState → Decision → List Effect × Round
settle conflict cm rel_id old st dec = ([], again rel_id)
settle refused cm rel_id old st dec = (alert cm rel_id dec, done (accepted dec.ignore))
settle updated cm rel_id old st dec = (
  wrote cm old st
      ∷ ((if eqb old.last_fact_at 0 then superseding cm ∷ [] else []) ++ alert cm rel_id dec),
  done (accepted dec.ignore),
)

abbrev pub after_sends : List Effect × Option Response → List Effect × Round → List Effect × Round
after_sends (fx, some r) rest = (fx, done r)
after_sends (fx, none) (gx, r) = (fx ++ gx, r)

module _ (time : TimeText) (mode : Mode) (fn : RelState → Time → RelState × Decision) where
  abbrev pub with_record : Attempt → String → ReleaseRecord → ConfigMap → List Effect × Round
  with_record a rel_id rec cm =
      let id = if rel_id == "" then text_at "releaseId" cm.entries else rel_id in
      let old = state_from_record time cm mode in
      let (st, dec) = fn old a.now in
      after_sends (send_all mode rec id a.sends dec.emits) (settle a.update cm id old st dec)

  abbrev pub on_load : Attempt → String → LoadResult → List Effect × Round
  on_load a rel_id (ready rec cm) = with_record a rel_id rec cm
  on_load a rel_id (ignore_err why) = ([], done (accepted why))
  on_load a rel_id (bad_err why) = ([], done (http_error 400))
  on_load a rel_id (other_err why) = ([], done (http_error 500))

  unfoldable pub round : Attempt → String → List Effect × Round
  round a rel_id = on_load a rel_id a.load

  -- The rounds from number `i` on, with `left` of them still allowed.
  unfoldable pub rounds : (ℕ → Attempt) → ℕ → ℕ → String → List Effect × Response
  rounds env zero i rel_id = ([], accepted "")
  rounds env (suc left) i rel_id =
      let (fx, r) = round (env i) rel_id in
      elim r [
        | done response ↦ (fx, response)
        | again id ↦ let (gx, response) = rounds env left (i + 1) id in (fx ++ gx, response)
      ]

  -- `apply`: at most four rounds.
  unfoldable pub apply : (ℕ → Attempt) → String → List Effect × Response
  apply env rel_id = rounds env 4 0 rel_id
