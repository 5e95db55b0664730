-- ===== src/Relay/Siblings/Outdated.antt =====
-- Which releases `supersedeOlder` of glidepath-relay/facts.go reaches, and for which.
use glidepath.Prelude.{
  String, ◌≡◌, ◌≢◌, refl, true, false, ◌&&◌, not, arith, eq_iff, ◌≤◌, ◌==◌, Bool-cases, inl, inr,
  ◌⊎◌,
}
use glidepath.Relay.Record.{ConfigMap}
use glidepath.Relay.Record.Times.{TimeText}
use glidepath.Relay.Siblings.{entry, selected, is_unlabelled, is_older, label, has_run}

-- The current release has the three labels that the list call selects by.
pub record IsLabelled (cur : ConfigMap) : Type 0 where
  pub app : label "hangar.io/app" cur ≢ ""
  pub env : label "hangar.io/env" cur ≢ ""
  pub cluster : label "hangar.io/cluster" cur ≢ ""

pub labelled :
    (cur : ConfigMap)
    → ((is_unlabelled cur ≡ true) × (¬ IsLabelled cur))
      ⊎ ((is_unlabelled cur ≡ false) × IsLabelled cur)
unfolding is_unlabelled
labelled cur = elim (Bool-cases (is_unlabelled cur)) [
  | inl e ↦ inl (
    e,
    λ l. absurd (
        ground (
          arith,
          e,
          l.app,
          l.env,
          l.cluster,
          eq_iff (label "hangar.io/app" cur) "",
          eq_iff (label "hangar.io/env" cur) "",
          eq_iff (label "hangar.io/cluster" cur) "",
        )),
  )
  | inr e ↦ inr (
    e,
    record {
      app = ground (arith, e, eq_iff (label "hangar.io/app" cur) "");
      env = ground (arith, e, eq_iff (label "hangar.io/env" cur) "");
      cluster = ground (arith, e, eq_iff (label "hangar.io/cluster" cur) "");
    },
  )
]

ran_text :
    (s : String)
    → has_run s ≡ true
    → (s ≡ "healthy") ⊎ ((s ≡ "progressing") ⊎ ((s ≡ "aborted") ⊎ (s ≡ "degraded")))
unfolding has_run
ran_text s h =
    ground
      (arith, eq_iff s "healthy", eq_iff s "progressing", eq_iff s "aborted", eq_iff s "degraded")

text_ran :
    (s : String)
    → (s ≡ "healthy") ⊎ ((s ≡ "progressing") ⊎ ((s ≡ "aborted") ⊎ (s ≡ "degraded")))
    → (not (s == "superseded") && (not (s == "rolled-back") && has_run s)) ≡ true
unfolding has_run
text_ran s (inl e) = rw e refl
text_ran s (inr (inl e)) = rw e refl
text_ran s (inr (inr (inl e))) = rw e refl
text_ran s (inr (inr (inr e))) = rw e refl

module _ (time : TimeText) where
  open time use {format, parse}

  -- A release of the same application, environment and cluster as the current one, by its labels,
  -- that ran and whose pull request is no newer.
  pub record IsOutdated (cur old : ConfigMap) : Type 0 where
    pub same_namespace : old.namespace ≡ cur.namespace
    pub tracking : label "hangar.io/subcomponent" old ≡ "release-tracking"
    pub same_app : label "hangar.io/app" old ≡ label "hangar.io/app" cur
    pub same_env : label "hangar.io/env" old ≡ label "hangar.io/env" cur
    pub same_cluster : label "hangar.io/cluster" old ≡ label "hangar.io/cluster" cur
    pub another : old.name ≢ cur.name
    pub did_run :
        (entry "state" old ≡ "healthy")
        ⊎ ((entry "state" old ≡ "progressing")
            ⊎ ((entry "state" old ≡ "aborted") ⊎ (entry "state" old ≡ "degraded")))
    pub no_newer : parse (entry "prCreatedAt" old) ≤ parse (entry "prCreatedAt" cur)

  pub reached-IsOutdated :
      (cur old : ConfigMap)
      → selected cur old ≡ true
      → is_older time cur old ≡ true
      → IsOutdated cur old
  unfolding selected is_older
  reached-IsOutdated cur old s o = record {
    same_namespace = ground (arith, eq_iff old.namespace cur.namespace);
    tracking = ground (arith, eq_iff (label "hangar.io/subcomponent" old) "release-tracking");
    same_app = ground (arith, eq_iff (label "hangar.io/app" old) (label "hangar.io/app" cur));
    same_env = ground (arith, eq_iff (label "hangar.io/env" old) (label "hangar.io/env" cur));
    same_cluster =
        ground (arith, eq_iff (label "hangar.io/cluster" old) (label "hangar.io/cluster" cur));
    another = ground (arith, eq_iff old.name cur.name);
    did_run = ran_text (entry "state" old) (ground arith);
    no_newer = ground arith;
  }

  pub IsOutdated-selected : (cur old : ConfigMap) → IsOutdated cur old → selected cur old ≡ true
  unfolding selected
  IsOutdated-selected cur old t =
      rw
        (
          (eq_iff old.namespace cur.namespace).1 t.same_namespace,
          (eq_iff (label "hangar.io/subcomponent" old) "release-tracking").1 t.tracking,
          (eq_iff (label "hangar.io/app" old) (label "hangar.io/app" cur)).1 t.same_app,
          (eq_iff (label "hangar.io/env" old) (label "hangar.io/env" cur)).1 t.same_env,
          (eq_iff (label "hangar.io/cluster" old) (label "hangar.io/cluster" cur)).1 t.same_cluster,
        )
        refl

  pub IsOutdated-is_older :
      (cur old : ConfigMap) → IsOutdated cur old → is_older time cur old ≡ true
  unfolding is_older
  IsOutdated-is_older cur old t = ground (
    arith,
    t.another,
    t.no_newer,
    eq_iff old.name cur.name,
    text_ran (entry "state" old) t.did_run,
  )
