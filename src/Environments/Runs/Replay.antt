-- ===== src/Environments/Runs/Replay.antt =====
-- A release run of environments.go is started once, however often its request is repeated.
use glidepath.Prelude.{
  String, ◌≡◌, refl, sym, ap, ◌∙◌, true, false, Option, some, none, ◌==◌, eq_iff, Bool-cases, inl,
  inr, arith,
}
use glidepath.Prelude.Dict.{Dict, lookup, insert, lookup-insert}
use glidepath.Environments.Runs.{
  Failure, Answer, fails, gives, refused, conflict, broken, ReleaseRun, PipelineRun, Started,
  TemplateRead, template, no_pipeline_run, absent, unreadable, Created, accepted, rejected,
  unavailable, Reread, reads, gone, unreachable, ApiServer, kind_of, template_of, params_of,
  run_name, has_hash, on_accepted, create, filled, from_template, Runs, start_run,
}

abbrev pub name_of : ReleaseRun → String → String
name_of p h = run_name (kind_of p) p.env p.git_revision h

-- What a start does: nothing, it finds this key's run, or it creates one under a free name.
pub data Starts (p : ReleaseRun) (h : String) (runs : Runs) : Runs × Answer Started → Type 0 where
  nothing : (e : Failure) → Starts p h runs (runs, fails e)
  found :
      (r : PipelineRun)
      → lookup (name_of p h) runs ≡ some r
      → has_hash h r.key_hash ≡ true
      → Starts p h runs
          (runs, gives (record { name = name_of p h; replayed = true; object = none }))
  created :
      (body : String)
      → lookup (name_of p h) runs ≡ none
      → Starts p h runs (
        insert (name_of p h) (record { body = body; key_hash = some h }) runs,
        gives (record { name = name_of p h; replayed = false; object = none }),
      )

module _ (p : ReleaseRun) (h : String) (runs : Runs) where
  accepted-Starts :
      (again : Reread) (body : String) (o : Option PipelineRun)
      → lookup (name_of p h) runs ≡ o
      → Starts p h runs (
          on_accepted again
            (name_of p h)
            h
            false
            (record { body = body; key_hash = some h })
            runs
            o)
  accepted-Starts again body none e = created body e
  accepted-Starts reads body (some r) e = elim (Bool-cases (has_hash h r.key_hash)) [
    | inl own ↦ rw own (found r e own)
    | inr other ↦ rw other (nothing conflict)
  ]
  accepted-Starts gone body (some r) e = nothing conflict
  accepted-Starts unreachable body (some r) e = nothing broken

  create-Starts :
      (c : Created) (again : Reread) (body : String)
      → Starts p h runs
          (create c again (name_of p h) h false (record { body = body; key_hash = some h }) runs)
  create-Starts accepted again body = accepted-Starts again body (lookup (name_of p h) runs) refl
  create-Starts rejected again body = nothing refused
  create-Starts unavailable again body = nothing broken

  filled-Starts :
      (api : ApiServer) (o : Option String)
      → Starts p h runs (filled api (name_of p h) h false runs o)
  filled-Starts api none = nothing refused
  filled-Starts api (some body) = create-Starts api.creates api.rereads body

  template-Starts :
      (api : ApiServer) (t : TemplateRead) → Starts p h runs (from_template api p h false runs t)
  template-Starts api (template fill) = filled-Starts api (fill (params_of (name_of p h) p))
  template-Starts api no_pipeline_run = nothing refused
  template-Starts api absent = nothing refused
  template-Starts api unreadable = nothing broken

  start_run-Starts : (api : ApiServer) → Starts p h runs (start_run api p h false runs)
  unfolding start_run
  start_run-Starts api = template-Starts api (api.templates (template_of p))

-- The services answer: the template is there and is filled, and no read or create fails.
pub record IsServing (api : ApiServer) (p : ReleaseRun) (h : String) : Type 0 where
  pub fill : Dict String → Option String
  pub body : String
  pub has_template : api.templates (template_of p) ≡ template fill
  pub is_filled : fill (params_of (name_of p h) p) ≡ some body
  pub creates : api.creates ≡ accepted
  pub rereads : api.rereads ≡ reads

-- A start that finds its run under its name changes nothing.
start_run-found :
    (api : ApiServer) (p : ReleaseRun) (h : String) (runs : Runs) (r : PipelineRun)
    → IsServing api p h
    → lookup (name_of p h) runs ≡ some r
    → has_hash h r.key_hash ≡ true
    → start_run api p h false runs
      ≡ (runs, gives (record { name = name_of p h; replayed = true; object = none }))
unfolding start_run
start_run-found api p h runs r w e own =
    rw (start_run, w.has_template, w.is_filled, w.creates, e, w.rereads, own) refl

abbrev started_name : Answer Started → String
started_name (fails e) = ""
started_name (gives s) = s.name

-- What one start leaves for the next.
left_by :
    (p : ReleaseRun) (h : String) (runs : Runs) (s : Started) (q : Runs × Answer Started)
    → Starts p h runs q
    → q.1 ≡ gives s
    → (s.name ≡ name_of p h)
      × ((n : String) (x : PipelineRun) → lookup n runs ≡ some x → lookup n q.0 ≡ some x)
      × ((r : PipelineRun) × (lookup (name_of p h) q.0 ≡ some r) × (has_hash h r.key_hash ≡ true))
left_by p h runs s q (nothing e) g = absurd cc
left_by p h runs s q (found r e own) g = (ap started_name (sym g), λ n x k. k, (r, e, own))
left_by p h runs s q (created body e) g = (
  ap started_name (sym g),
  λ n x k.
      lookup-insert (name_of p h) n (record { body = body; key_hash = some h }) runs
      ∙ elim (Bool-cases (name_of p h == n)) [
        | inl same ↦
            absurd (
              ground (arith, sym e ∙ ap (λ m. lookup m runs) ((eq_iff (name_of p h) n).0 same) ∙ k))
        | inr other ↦ rw other k
      ],
  (
    record { body = body; key_hash = some h },
    lookup-insert (name_of p h) (name_of p h) (record { body = body; key_hash = some h }) runs
        ∙ rw ((eq_iff (name_of p h) (name_of p h)).1 refl) refl,
    (eq_iff h h).1 refl,
  ),
)

-- A retry of a release run with the same key changes nothing: if a start is answered with a run, no run
-- that was there before is lost or replaced, and as long as the services answer, the next start for the
-- same environment, revision and key is answered as a replay of that run and creates none.
pub start_run-replay :
    (api later : ApiServer) (p : ReleaseRun) (h : String) (runs : Runs) (s : Started)
    → (start_run api p h false runs).1 ≡ gives s
    → IsServing later p h
    → let after = (start_run api p h false runs).0 in
      ((n : String) (x : PipelineRun) → lookup n runs ≡ some x → lookup n after ≡ some x)
      × (start_run later p h false after
          ≡ (after, gives (record { name = s.name; replayed = true; object = none })))
start_run-replay api later p h runs s g w =
    let left =
      left_by p h runs s (start_run api p h false runs) (start_run-Starts p h runs api) g in
    let (r, here, own) = left.2 in
    (
      left.1,
      start_run-found later p h (start_run api p h false runs).0 r w here own
          ∙ ap
              (λ n. (
                (start_run api p h false runs).0,
                gives (record { name = n; replayed = true; object = none }),
              ))
              (sym left.0),
    )
