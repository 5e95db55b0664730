-- ===== src/Dora/Paths/Restart.antt =====
-- A restarted exporter of dora-exporter/main.go counts what the one before it counted.
use glidepath.Prelude.{
  ℕ, ◌≡◌, refl, sym, ◌∙◌, String, Bool, true, false, ◌||◌, not, List, [], ◌∷◌, Option, some, none,
  ◌==◌, All, arith, Bool-cases, inl, inr,
}
use glidepath.Prelude.Text.{contains}
use glidepath.Prelude.Dict.{Dict, text_at}
use glidepath.Prelude.Dict.Keys.{IsMap}
use glidepath.Dora.Exporter.{Formats, is_terminal_phase, Exporter, Answers, parse_time, prime}
use glidepath.Dora.Paths.{
  OutcomeRequest, Application, handle_outcome, reconcile, Event, outcome, application, step, run,
  patch_failures, is_old, outcome_at, reconcile_at, reconcile_from,
}
use glidepath.Dora.Exporter.Prime.{prime-stored}
use glidepath.Dora.Exporter.Mirror.{IsMirrored, IsMirrored-record}

module _ {F : Type 0} (fm : Formats F) where
  -- The namespace that an event is for has no dot, as none of Kubernetes has.
  abbrev pub has_namespace : Event fm → Bool
  has_namespace (outcome method none) = true
  has_namespace (outcome method (some q)) = not (contains b'.' q.app_namespace)
  has_namespace (application app) =
      not (contains b'.' (text_at "hangar.io/dora-app-namespace" app.annotations))

  -- An event whose reads and writes of dora-metrics-state succeed.
  abbrev pub IsServed : Answers × Event fm → Type 0
  IsServed (api, e) =
      (api.reads_metrics ≡ true) × (api.writes_metrics ≡ true) × (has_namespace e ≡ true)

  IsMirrored-failures :
      (api : Answers) (key : String) (v : Option (Option String)) (s : Exporter F)
      → IsMirrored fm s
      → IsMirrored fm (patch_failures fm api key v s)
  IsMirrored-failures api key none s m = m
  IsMirrored-failures api key (some v) s m = elim (Bool-cases api.writes_failures) [
    | inr e ↦ rw e m
    | inl e ↦ rw e (record { store = m.store; kept = m.kept; map = m.map; same = m.same })
  ]

  IsMirrored-outcome :
      (api : Answers) (q : OutcomeRequest) (t : Option ℕ) (s : Exporter F)
      → api.reads_metrics ≡ true
      → api.writes_metrics ≡ true
      → contains b'.' q.app_namespace ≡ false
      → is_terminal_phase q.phase ≡ true
      → IsMirrored fm s
      → IsMirrored fm (outcome_at fm api q t s).0
  IsMirrored-outcome api q none s r w n p m = m
  IsMirrored-outcome api q (some finished) s r w n p m = IsMirrored-failures api _ _ _ (
      IsMirrored-record fm api q.app_namespace q.app_name q.phase finished q.flow_start_time _ s r w
        p n m)

  IsMirrored-reconcile :
      (api : Answers) (app : Application) (t u : Option ℕ) (s : Exporter F)
      → api.reads_metrics ≡ true
      → api.writes_metrics ≡ true
      → contains b'.' (text_at "hangar.io/dora-app-namespace" app.annotations) ≡ false
      → is_terminal_phase app.phase ≡ true
      → IsMirrored fm s
      → IsMirrored fm (reconcile_at fm api app u s).0
  IsMirrored-reconcile api app t none s r w n p m = m
  IsMirrored-reconcile api app t (some finished) s r w n p m =
      IsMirrored-record fm api _ _ app.phase finished _ _ s r w p n m

  IsMirrored-step :
      (s : Exporter F) (e : Answers × Event fm)
      → IsServed e
      → IsMirrored fm s
      → IsMirrored fm (step fm s e)
  unfolding step handle_outcome reconcile
  IsMirrored-step s (api, outcome method none) h m = elim (Bool-cases (method == "POST")) [
    | inl e ↦ rw (step, handle_outcome, e) m
    | inr e ↦ rw (step, handle_outcome, e) m
  ]
  IsMirrored-step s (api, outcome method (some q)) h m = elim (Bool-cases (method == "POST")) [
    | inr e ↦ rw (step, handle_outcome, e) m
    | inl e ↦
        elim (Bool-cases ((q.app_namespace == "") || ((q.app_name == "") || (q.phase == "")))) [
          | inl g ↦ rw (step, handle_outcome, e, g) m
          | inr g ↦ elim (Bool-cases (is_terminal_phase q.phase)) [
            | inr p ↦ rw (step, handle_outcome, e, g, p) m
            | inl p ↦
                rw (step, handle_outcome, e, g, p)
                  (IsMirrored-outcome api q (parse_time fm q.finished_at) s h.0 h.1
                    (ground (arith, h.2)) p m)
          ]
        ]
  ]
  IsMirrored-step s (api, application app) h m =
      elim (Bool-cases (text_at "hangar.io/dora-pending" app.annotations == "true")) [
        | inr e ↦ rw (step, reconcile, e) m
        | inl e ↦ elim (Bool-cases (is_terminal_phase app.phase)) [
          | inr p ↦ rw (step, reconcile, e, p) m
          | inl p ↦ rw (step, reconcile, e, p) (from (parse_time fm app.started_at) p)
        ]
      ]
    where
      from :
          (o : Option ℕ)
          → is_terminal_phase app.phase ≡ true
          → IsMirrored fm (reconcile_from fm api app o s).0
      from none p = m
      from (some started) p =
          elim (Bool-cases (
            is_old started
              (parse_time fm (text_at "hangar.io/dora-baseline-started-at" app.annotations)))) [
                | inl o ↦ rw o m
                | inr o ↦ rw o (
                    IsMirrored-reconcile api app none (parse_time fm app.finished_at) s h.0 h.1
                      (ground (arith, h.2)) p m)
              ]

  IsMirrored-run :
      (s : Exporter F) (es : List (Answers × Event fm))
      → IsMirrored fm s
      → All IsServed es
      → IsMirrored fm (run fm s es)
  unfolding run
  IsMirrored-run s [] m h = m
  IsMirrored-run s (e ∷ es) m h = IsMirrored-run (step fm s e) es (IsMirrored-step s e h.0 m) h.1

  -- A restart loses nothing and counts nothing twice: if an exporter starts from a state ConfigMap,
  -- every read and write of it succeeds, and no event is for a namespace with a dot, which none of
  -- Kubernetes has, then after any such outcomes and Application events a process that starts from the
  -- ConfigMap then has the collectors of the one that stops, for every application of a namespace
  -- without a dot.
  pub run-prime :
      (d : Dict String) (failures : Option (Dict String)) (es : List (Answers × Event fm))
      (ns app : String)
      → IsMap d
      → All IsServed es
      → contains b'.' ns ≡ false
      → let s =
          run fm (record { live = prime fm (some d); metrics = some d; failures = failures }) es in
        prime fm s.metrics ns app ≡ s.live ns app
  run-prime d failures es ns app u h n =
      let m =
        IsMirrored-run (record { live = prime fm (some d); metrics = some d; failures = failures })
          es
          (record {
            store = d;
            kept = refl;
            map = u;
            same = λ a b g. prime-stored fm (some d) d a b refl u g;
          })
          h in
      prime-stored fm _ m.store ns app m.kept m.map n ∙ sym (m.same ns app n)
