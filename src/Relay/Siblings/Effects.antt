-- ===== src/Relay/Siblings/Effects.antt =====
-- What `supersedeOlder` and `markRolledBack` of glidepath-relay/facts.go may change, and what not.
use glidepath.Prelude.{
  String, ◌≡◌, ◌≢◌, refl, Bool, true, false, ◌&&◌, not, List, [], ◌∷◌, Option, some, arith, eq_iff,
  if◌then◌else◌, Bool-cases, Option-cases, inl, inr, ◌⊎◌,
}
use glidepath.Prelude.Text.{concat}
use glidepath.Prelude.Dict.{insert, text_at-insert}
use glidepath.Relay.Reducer.{Time}
use glidepath.Relay.Record.{ConfigMap, ReleaseId, parse_release_id, record_prefix}
use glidepath.Relay.Record.Times.{TimeText}
use glidepath.Relay.Siblings.{
  entry, selected, is_older, superseded_by, supersede_loop, supersede_older, mark_rolled_back,
  mark_checked,
}
use glidepath.Relay.Siblings.Outdated.{
  IsLabelled, labelled, IsOutdated, reached-IsOutdated, IsOutdated-selected, IsOutdated-is_older,
}

module _ (time : TimeText) where
  open time use {format, parse}

  -- How one ConfigMap comes out: as it was, for a reason, or marked.
  pub data Outcome (listable : Bool) (fails : ConfigMap → Bool) (cur old : ConfigMap)
      : ConfigMap → Type 0 where
    kept :
        (listable ≡ false)
          ⊎ ((fails old ≡ true) ⊎ ((¬ IsLabelled cur) ⊎ (¬ IsOutdated time cur old)))
        → Outcome listable fails cur old old
    marked :
        {new : ConfigMap}
        → listable ≡ true
        → fails old ≡ false
        → IsLabelled cur
        → IsOutdated time cur old
        → entry "state" new ≡ "superseded"
        → entry "supersededBy" new ≡ entry "releaseId" cur
        → ((j : String)
            → j ≢ "state"
            → j ≢ "stateAt"
            → j ≢ "supersededBy"
            → entry j new ≡ entry j old)
        → Outcome listable fails cur old new

  pub data Outcomes (listable : Bool) (fails : ConfigMap → Bool) (cur : ConfigMap)
      : List ConfigMap → List ConfigMap → Type 0 where
    nil : Outcomes listable fails cur [] []
    cons :
        {old new : ConfigMap} {olds news : List ConfigMap}
        → Outcome listable fails cur old new
        → Outcomes listable fails cur olds news
        → Outcomes listable fails cur (old ∷ olds) (new ∷ news)

  is_older-superseded_by :
      (now : Time) (cur old : ConfigMap)
      → is_older time cur (superseded_by time now cur old) ≡ false
  unfolding is_older superseded_by
  is_older-superseded_by now cur old = simp text_at-insert (ground arith)

  Outcome-superseded_by :
      (now : Time) (fails : ConfigMap → Bool) (cur old : ConfigMap)
      → IsLabelled cur
      → fails old ≡ false
      → IsOutdated time cur old
      → Outcome true fails cur old (superseded_by time now cur old)
  unfolding superseded_by
  Outcome-superseded_by now fails cur old l f t =
      marked refl f l t (simp text_at-insert) (simp text_at-insert) λ j a b c.
        simp text_at-insert
          (ground (arith, eq_iff "supersededBy" j, eq_iff "stateAt" j, eq_iff "state" j))

  Outcomes-refl :
      (listable : Bool) (fails : ConfigMap → Bool) (cur : ConfigMap)
      → (listable ≡ false) ⊎ (¬ IsLabelled cur)
      → (cms : List ConfigMap) → Outcomes listable fails cur cms cms
  Outcomes-refl listable fails cur why [] = nil
  Outcomes-refl listable fails cur (inl e) (c ∷ cs) =
      cons (kept (inl e)) (Outcomes-refl listable fails cur (inl e) cs)
  Outcomes-refl listable fails cur (inr l) (c ∷ cs) =
      cons (kept (inr (inr (inl l)))) (Outcomes-refl listable fails cur (inr l) cs)

  Outcomes-loop :
      (now : Time) (fails : ConfigMap → Bool) (cur : ConfigMap)
      → IsLabelled cur
      → (cms : List ConfigMap) → Outcomes true fails cur cms (supersede_loop time now fails cur cms)
  unfolding supersede_loop
  Outcomes-loop now fails cur l [] = nil
  Outcomes-loop now fails cur l (old ∷ rest) =
      cons (one (Bool-cases (selected cur old)) (Bool-cases (is_older time cur old)))
        (Outcomes-loop now fails cur l rest)
    where
      one :
          (selected cur old ≡ true) ⊎ (selected cur old ≡ false)
          → (is_older time cur old ≡ true) ⊎ (is_older time cur old ≡ false)
          → Outcome true fails cur old (
              if selected cur old && (is_older time cur old && not (fails old))
              then superseded_by time now cur old
              else old)
      one (inr s) o = rw s (
          kept
            (inr (inr (inr λ t. absurd (ground (arith, s, IsOutdated-selected time cur old t))))))
      one (inl s) (inr o) =
          rw (s, o)
            (kept
              (inr (inr (inr λ t. absurd (ground (arith, o, IsOutdated-is_older time cur old t))))))
      one (inl s) (inl o) = elim (Bool-cases (fails old)) [
        | inl f ↦ rw (s, o, f) (kept (inr (inl f)))
        | inr f ↦
            rw (s, o, f)
              (Outcome-superseded_by now fails cur old l f (reached-IsOutdated time cur old s o))
      ]

  -- `supersedeOlder` marks, as superseded by the current release and with all other entries
  -- unchanged, exactly the release records that have run, carry the current one's application, environment
  -- and cluster labels in its namespace, are not it, and whose pull request is no newer than its
  -- own, as far as the current record has those labels, the list call succeeds and the record's
  -- update is not refused; every other record of the cluster is as it was.
  pub supersede_older-Outcomes :
      (now : Time) (listable : Bool) (fails : ConfigMap → Bool) (cur : ConfigMap)
      (cms : List ConfigMap)
      → Outcomes listable fails cur cms (supersede_older time now listable fails cur cms)
  unfolding supersede_older
  supersede_older-Outcomes now false fails cur cms =
      ground (arith, Outcomes-refl false fails cur (inl refl) cms)
  supersede_older-Outcomes now true fails cur cms = elim (labelled cur) [
    | inl (e, l) ↦ rw e (Outcomes-refl true fails cur (inr l) cms)
    | inr (e, l) ↦ rw e (Outcomes-loop now fails cur l cms)
  ]

  loop-settled :
      (now now' : Time) (fails : ConfigMap → Bool) (cur : ConfigMap) (cms : List ConfigMap)
      → supersede_loop time now' fails cur (supersede_loop time now (λ _. false) cur cms)
        ≡ supersede_loop time now (λ _. false) cur cms
  unfolding supersede_loop
  loop-settled now now' fails cur [] = refl
  loop-settled now now' fails cur (old ∷ rest) =
      ground (arith, is_older-superseded_by now cur old, loop-settled now now' fails cur rest)

  -- Marking is idempotent: after a pass in which no update is refused, a later pass for the same
  -- release, under any refusals, changes nothing.
  pub supersede_older_idem :
      (now now' : Time) (listable listable' : Bool) (fails : ConfigMap → Bool) (cur : ConfigMap)
      (cms : List ConfigMap)
      → let done = supersede_older time now true (λ _. false) cur cms in
        supersede_older time now' listable' fails cur done ≡ done
  unfolding supersede_older
  supersede_older_idem now now' listable listable' fails cur cms =
      ground (arith, loop-settled now now' fails cur cms)

  -- How a record comes to be marked as rolled back.
  pub record IsMarked (get : String → String → Option ConfigMap) (cur : ConfigMap)
      (target by : String) (new : ConfigMap) : Type 0 where
    pub id : ReleaseId
    pub old : ConfigMap
    pub named : parse_release_id target ≡ some id
    pub read : get cur.namespace (concat (record_prefix ∷ id.chain ∷ [])) ≡ some old
    pub same_app : entry "appName" old ≡ entry "appName" cur
    pub same_env : entry "env" old ≡ id.env
    pub same_cluster : entry "cluster" old ≡ id.cluster
    pub was_not : entry "state" old ≢ "rolled-back"
    pub state : entry "state" new ≡ "rolled-back"
    pub mark : entry "rolledBackBy" new ≡ by
    pub rest :
        (j : String) → j ≢ "state" → j ≢ "stateAt" → j ≢ "rolledBackBy" → entry j new ≡ entry j old

  abbrev written : Time → String → ConfigMap → ConfigMap
  written now by old = record old {
    entries =
        insert "rolledBackBy" by
          (insert "stateAt" (format now) (insert "state" "rolled-back" old.entries));
  }

  written-rest :
      (now : Time) (by : String) (old : ConfigMap) (j : String)
      → j ≢ "state"
      → j ≢ "stateAt"
      → j ≢ "rolledBackBy"
      → entry j (written now by old) ≡ entry j old
  written-rest now by old j a b c =
      simp text_at-insert
        (ground (arith, eq_iff "rolledBackBy" j, eq_iff "stateAt" j, eq_iff "state" j))

  written-IsMarked :
      (now : Time) (get : String → String → Option ConfigMap) (cur : ConfigMap) (target by : String)
      (id : ReleaseId) (old new : ConfigMap)
      → parse_release_id target ≡ some id
      → get cur.namespace (concat (record_prefix ∷ id.chain ∷ [])) ≡ some old
      → mark_checked time now cur by id old ≡ some new
      → IsMarked get cur target by new
  written-IsMarked now get cur target by id old new p q h =
      let e : written now by old ≡ new = ground arith in
      record {
        id = id;
        old = old;
        named = p;
        read = q;
        same_app = ground (arith, eq_iff (entry "appName" old) (entry "appName" cur));
        same_env = ground (arith, eq_iff (entry "env" old) id.env);
        same_cluster = ground (arith, eq_iff (entry "cluster" old) id.cluster);
        was_not = ground (arith, eq_iff (entry "state" old) "rolled-back");
        state = rw (← e) (simp text_at-insert);
        mark = rw (← e) (simp text_at-insert);
        rest = rw (← e) (written-rest now by old);
      }

  -- A rollback marks only a record that `get` answers for the chain of the release id that it
  -- names, of its own application and of the environment and cluster in that id, whichever the
  -- rollback's own are, and one that is not marked yet; of that record it writes the three keys of
  -- the mark and no other.
  pub mark_rolled_back-some :
      (now : Time) (get : String → String → Option ConfigMap) (cur : ConfigMap) (target by : String)
      (new : ConfigMap)
      → mark_rolled_back time now get cur target by ≡ some new
      → IsMarked get cur target by new
  unfolding mark_rolled_back
  mark_rolled_back-some now get cur target by new h =
      elim (Option-cases (parse_release_id target)) [
        | inl none_such ↦ cc (none_such)
        | inr (id, p) ↦
            elim (Option-cases (get cur.namespace (concat (record_prefix ∷ id.chain ∷ [])))) [
              | inl e ↦ absurd (ground (arith, p, e))
              | inr (old, q) ↦
                  written-IsMarked now get cur target by id old new p q (ground (arith, p, q))
            ]
      ]
