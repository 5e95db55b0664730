-- ===== src/Live/Stream.antt =====
-- glidepath/api/internal/live/stream.go: a namespace's watch and its viewers. Each of its critical
-- sections is one step.
pub mod Changes
pub mod Viewers
use glidepath.Prelude.{
  ℕ, ◌+◌, suc, String, Bool, true, false, not, List, [], ◌∷◌, ◌++◌, Option, some, none, ◌==◌, eqb,
  ltb, if◌then◌else◌, length, keep, map, drop,
}
use glidepath.Prelude.Text.{concat}
use glidepath.Prelude.Dict.{Dict, lookup, insert, remove}
use glidepath.Prelude.Order.{text_order}
use glidepath.Prelude.Sort.{sort_by}

-- What `kindOf`, `nameOf` and `versionOf` read of an object, and the rest of it.
pub record Obj : Type 0 where
  pub kind : String
  pub name : String
  pub version : String
  pub body : String

abbrev pub key_of : String → String → String
key_of kind name = concat (kind ∷ "/" ∷ name ∷ [])

abbrev pub key : Obj → String
key o = key_of o.kind o.name

-- `Change`: a deletion has only the kind and the name.
pub data Change : Type 0 where
  upsert : Obj → Change
  delete : String → String → Change

pub record Snapshot : Type 0 where
  pub pipeline_runs : List Obj
  pub task_runs : List Obj

-- The map that `poll` makes of its two lists.
unfoldable pub listed : List Obj → Dict Obj → Dict Obj
listed [] d = d
listed (o ∷ os) d = listed os (insert (key o) o d)

-- A loop over the sorted keys of a map, with the objects under them.
abbrev pub by_key : Dict Obj → Dict Obj
by_key d = sort_by text_order (λ (e : String × Obj). e.0) d

abbrev pub moved_from : Obj → Option Obj → Bool
moved_from o none = true
moved_from o (some prev) = not (prev.version == o.version)

abbrev pub is_moved : Dict Obj → String × Obj → Bool
is_moved old e = moved_from e.1 (lookup e.0 old)

abbrev pub is_missing : Option Obj → Bool
is_missing none = true
is_missing (some o) = false

abbrev pub is_gone : Dict Obj → String × Obj → Bool
is_gone now e = is_missing (lookup e.0 now)

abbrev pub upsert_of : String × Obj → Change
upsert_of e = upsert e.1

abbrev pub delete_of : String × Obj → Change
delete_of e = delete e.1.kind e.1.name

-- The changes of `poll`, from what was sent last to what is listed now.
unfoldable pub changes : Dict Obj → Dict Obj → List Change
changes old now =
    map upsert_of (keep (is_moved old) (by_key now))
    ++ map delete_of (keep (is_gone now) (by_key old))

-- `Snapshot` of the objects as last sent.
abbrev pub is_task : String × Obj → Bool
is_task e = e.1.kind == "TaskRun"

unfoldable pub snapshot : Dict Obj → Snapshot
snapshot objs = record {
  pipeline_runs = map (λ e. e.1) (keep (λ e. not (is_task e)) (by_key objs));
  task_runs = map (λ e. e.1) (keep is_task (by_key objs));
}

-- A viewer: its stream's number and queue, oldest first, and what it has made of the snapshot and
-- of the changes that it has read.
pub record Sub : Type 0 where
  pub number : ℕ
  pub queue : List Change
  pub view : Dict Obj

-- What a viewer does with a change, and with the snapshot.
unfoldable pub apply_change : Change → Dict Obj → Dict Obj
apply_change (upsert o) d = insert (key o) o d
apply_change (delete kind name) d = remove (key_of kind name) d

unfoldable pub apply_all : List Change → Dict Obj → Dict Obj
unfolding apply_change
apply_all [] d = d
apply_all (c ∷ cs) d = apply_all cs (apply_change c d)

abbrev pub view_of : Snapshot → Dict Obj
view_of s = listed (s.pipeline_runs ++ s.task_runs) []

-- A watch that is ready: the objects as last sent, the live viewers, and the ended ones, whose
-- channels are closed. `next` numbers the next stream.
pub record Watch : Type 0 where
  pub objs : Dict Obj
  pub subs : List Sub
  pub ended : List Sub
  pub next : ℕ

-- The sends of `poll` to one viewer, with room for `buffer` changes: the queue, and whether the
-- viewer fell behind.
unfoldable pub send : ℕ → List Change → List Change → List Change × Bool
send buffer [] queue = (queue, false)
send buffer (c ∷ cs) queue =
    let rest = send buffer cs (queue ++ c ∷ []) in
    if ltb (length queue) buffer then rest else (queue, true)

abbrev pub sent_to : Sub → List Change × Bool → List Sub × List Sub → List Sub × List Sub
sent_to s (queue, false) (live, gone) = (record s { queue = queue } ∷ live, gone)
sent_to s (queue, true) (live, gone) = (live, record s { queue = queue } ∷ gone)

unfoldable pub send_all : ℕ → List Change → List Sub → List Sub → List Sub × List Sub
send_all buffer cs [] gone = ([], gone)
send_all buffer cs (s ∷ subs) gone =
    sent_to s (send buffer cs s.queue) (send_all buffer cs subs gone)

-- `poll` once both lists were read.
unfoldable pub poll : ℕ → List Obj → List Obj → Watch → Watch
poll buffer prs trs w =
    let now = listed (prs ++ trs) [] in
    let (live, gone) = send_all buffer (changes w.objs now) w.subs w.ended in
    record w { objs = now; subs = live; ended = gone }

-- The last part of `Subscribe`.
unfoldable pub subscribe : Watch → Watch × Snapshot
subscribe w =
    let snap = snapshot w.objs in
    let sub : Sub = record { number = w.next; queue = []; view = view_of snap } in
    (record w { subs = sub ∷ w.subs; next = suc w.next }, snap)

-- `Unsubscribe` on the watch.
unfoldable pub take_out : ℕ → List Sub → List Sub → List Sub × List Sub
take_out n [] gone = ([], gone)
take_out n (s ∷ subs) gone =
    let (live, rest) = take_out n subs gone in
    if eqb s.number n then (live, s ∷ rest) else (s ∷ live, rest)

unfoldable pub unsubscribe : ℕ → Watch → Watch
unsubscribe n w =
    let (live, gone) = take_out n w.subs w.ended in record w { subs = live; ended = gone }

-- `run` when its context is done.
abbrev pub stop : Watch → Watch
stop w = record w { subs = []; ended = w.subs ++ w.ended }

-- A viewer reads the oldest change of its queue, if there is one.
abbrev pub read_change : List Change → Sub → Sub
read_change [] s = s
read_change (c ∷ cs) s = record s { queue = cs; view = apply_change c s.view }

unfoldable pub read_from : ℕ → List Sub → List Sub
read_from n [] = []
read_from n (s ∷ subs) =
    let rest = read_from n subs in if eqb s.number n then read_change s.queue s ∷ rest else s ∷ rest

-- What can happen to a watch; a poll whose lists fail changes nothing.
pub data Call : Type 0 where
  polls : List Obj → List Obj → Call
  fails : Call
  subscribes : Call
  unsubscribes : ℕ → Call
  reads : ℕ → Call
  stops : Call

pub step : ℕ → Watch → Call → Watch
step buffer w (polls prs trs) = poll buffer prs trs w
step buffer w fails = w
step buffer w subscribes = (subscribe w).0
step buffer w (unsubscribes n) = unsubscribe n w
step buffer w (reads n) = record w { subs = read_from n w.subs }
step buffer w stops = stop w

pub run : ℕ → Watch → List Call → Watch
unfolding step
run buffer w [] = w
run buffer w (c ∷ cs) = run buffer (step buffer w c) cs

-- A watch as it is made.
abbrev pub new_watch : Watch
new_watch = record { objs = []; subs = []; ended = []; next = 0 }
