-- ===== src/Environments/Rollback.antt =====
-- glidepath/api/internal/environments/rollback.go, `PlanRollback`: the release that runs now, and those
-- that a rollback may go back to. A record is one of releases.go.
pub mod Plan
use glidepath.Prelude.{
  ℕ, ◌≡◌, String, Bool, true, false, ◌&&◌, ◌||◌, not, List, [], ◌∷◌, Option, some, none, ◌==◌, leb,
  if◌then◌else◌, take, keep, ◌⊎◌, arith, ◌*◌,
}
use glidepath.Prelude.Dict.{Dict, lookup, text_at}
use glidepath.Prelude.Order.{Order, leb_total, leb_trans}
use glidepath.Prelude.Sort.{sort_by, any}

pub record Record : Type 0 where
  pub name : String
  pub entries : Dict String

-- `ranStates`.
unfoldable pub has_run : String → Bool
has_run s =
    (s == "progressing")
    || ((s == "healthy") || ((s == "aborted") || ((s == "degraded") || (s == "sync-failed"))))

-- A field that the record lacks is none.
pub record Current : Type 0 where
  pub release_id : Option String
  pub image : Option String
  pub state : String
  pub state_at : Option String

pub record Target : Type 0 where
  pub release_id : String
  pub image : String
  pub git_revision : String
  pub git_url : String
  pub healthy_at : String
  pub state : Option String

pub record RollbackPlan : Type 0 where
  pub current : Option Current
  pub targets : List Target

-- 1970 in milliseconds since the start of the year 0, with which RFC 3339 starts.
abbrev epoch : ℕ
epoch = 62167219200 * 1000

-- The latest first: Go's `>` as a stable sort's `less`.
abbrev pub latest : Order ℕ
latest = record {
  le = λ a b. leb b a;
  total = λ a b. leb_total b a;
  trans = λ a b c p q. leb_trans c b a q p;
}

abbrev pub at : String → Record → String
at k r = text_at k r.entries

abbrev pub current_of : List Record → Option Current
current_of [] = none
current_of (r ∷ rs) = some (record {
  release_id = lookup "releaseId" r.entries;
  image = lookup "image" r.entries;
  state = at "state" r;
  state_at = lookup "stateAt" r.entries;
})

abbrev pub is_text : Option String → String → Bool
is_text none s = false
is_text (some t) s = s == t

-- The test of a release against the current one.
abbrev pub is_current : Option Current → Record → Bool
is_current none r = false
is_current (some c) r = is_text c.release_id (at "releaseId" r) || is_text c.image (at "image" r)

-- A record written before phase 4 lacks one of these.
abbrev pub is_complete : Record → Bool
is_complete r = not (
    (at "image" r == "")
    || ((at "gitRevision" r == "") || ((at "gitUrl" r == "") || (at "releaseId" r == ""))))

abbrev pub target_of : Record → Target
target_of r = record {
  release_id = at "releaseId" r;
  image = at "image" r;
  git_revision = at "gitRevision" r;
  git_url = at "gitUrl" r;
  healthy_at = at "healthyAt" r;
  state = lookup "state" r.entries;
}

-- The loop over the window, with the images that it has seen.
unfoldable pub choose : Option Current → List String → List Record → List Target
choose cur seen [] = []
choose cur seen (r ∷ rs) =
    let skip = choose cur seen rs in
    let add = choose cur (at "image" r ∷ seen) rs in
    if not (is_complete r)
    then skip
    else if is_current cur r || any (λ i. i == at "image" r) seen
    then skip
    else target_of r ∷ add

-- `parse` is `time.Parse` of RFC 3339, in milliseconds since the start of the year 0.
module _ (parse : String → Option ℕ) where
  -- `jsTime`.
  unfoldable pub js_time : String → ℕ
  js_time s = if s == "" then epoch else elim (parse s) [ none ↦ epoch | some t ↦ t ]

  abbrev pub created : Record → ℕ
  created r = js_time (at "prCreatedAt" r)

  abbrev pub was_healthy : Record → ℕ
  was_healthy r = js_time (at "healthyAt" r)

  unfoldable pub ran : List Record → List Record
  ran rs = sort_by latest created (keep (λ r. has_run (at "state" r)) rs)

  unfoldable pub window : List Record → List Record
  window rs = take 5 (sort_by latest was_healthy (keep (λ r. not (at "healthyAt" r == "")) rs))

  unfoldable pub plan_rollback : List Record → RollbackPlan
  unfolding ran window
  plan_rollback rs =
      let cur = current_of (ran rs) in record { current = cur; targets = choose cur [] (window rs) }
