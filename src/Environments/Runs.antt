-- ===== src/Environments/Runs.antt =====
-- glidepath/api/internal/environments/environments.go: the names and tests that promotions and rollbacks
-- share, and the start of a release run.
pub mod Replay
use Prim.Native.Char.{code}
use glidepath.Prelude.{
  ℕ, zero, suc, String, Bool, true, false, ◌&&◌, ◌||◌, not, List, [], ◌∷◌, Option, some, none, ◌==◌,
  leb, eqb, if◌then◌else◌,
}
use glidepath.Prelude.Text.{concat, split, strip_prefix, has_prefix}
use glidepath.Prelude.Text.Classes.{every, size, is_plain, is_alnum}
use glidepath.Prelude.Dict.{Dict, lookup, insert, text_at}

-- How a request fails: `Invalid`, `Refused`, a `Conflict`, or an error of a service.
pub data Failure : Type 0 where
  invalid : Failure
  refused : Failure
  conflict : Failure
  broken : Failure

pub data Answer (A : Type 0) : Type 0 where
  fails : Failure → Answer A
  gives : A → Answer A

abbrev pub and_then : {A B : Type 0} → Answer A → (A → Answer B) → Answer B
and_then (fails e) f = fails e
and_then (gives a) f = f a

-- A regular expression with a class for the first character, one for the rest, and a bound on them.
unfoldable pub is_word : (ℕ → Bool) → (ℕ → Bool) → ℕ → String → Bool
is_word p q n String.[] = false
is_word p q n (String.◌∷◌ c s) = p (code c) && (every q s && leb (size s) n)

-- `NameRE`, `imageRepoRE` and `imageTagRE`.
abbrev name_char : ℕ → Bool
name_char c = is_alnum c || (eqb c b'.' || (eqb c b'_' || eqb c b'-'))

abbrev repo_char : ℕ → Bool
repo_char c =
    is_plain c || (eqb c b'.' || (eqb c b'_' || (eqb c b'/' || (eqb c b':' || eqb c b'-'))))

unfoldable pub is_env_name : String → Bool
is_env_name = is_word is_alnum name_char 62

unfoldable pub is_image_repo : String → Bool
is_image_repo = is_word is_plain repo_char 254

unfoldable pub is_image_tag : String → Bool
is_image_tag = is_word (λ c. is_alnum c || eqb c b'_') name_char 127

-- `Repos`, and `ReposOf`.
pub record Repos : Type 0 where
  pub source : String
  pub gitops : String
  pub config : String

unfoldable pub repos_of : String → String → Repos
repos_of namespace name =
    if has_prefix "infra-" namespace
    then (let g = concat ("gitops-infra-" ∷ name ∷ []) in
        record { source = name; gitops = g; config = g })
    else record { source = name; gitops = concat ("gitops-" ∷ name ∷ []); config = name }

-- The first characters of a text.
unfoldable pub front : ℕ → String → String
front zero s = String.[]
front (suc n) String.[] = String.[]
front (suc n) (String.◌∷◌ c s) = String.◌∷◌ c (front n s)

-- `short`.
abbrev pub short : String → String
short = front 8

-- `ExtractShortSha`: what follows the last dash, if it is 7 to 40 hexadecimal digits.
abbrev last_of : List String → String
last_of [] = ""
last_of (s ∷ []) = s
last_of (s ∷ t ∷ rest) = last_of (t ∷ rest)

abbrev is_hex_digit : ℕ → Bool
is_hex_digit c =
    (leb b'0' c && leb c b'9') || ((leb b'a' c && leb c b'f') || (leb b'A' c && leb c b'F'))

abbrev is_sha : String → Bool
is_sha s = every is_hex_digit s && (leb 7 (size s) && leb (size s) 40)

unfoldable pub extract_short_sha : String → Answer String
extract_short_sha tag =
    let s = last_of (split b'-' tag) in if is_sha s then gives s else fails refused

-- `RunName`.
unfoldable pub run_name : String → String → String → String → String
run_name kind env revision key_hash =
    front 63 (concat (kind ∷ "-" ∷ env ∷ "-" ∷ front 8 revision ∷ "-" ∷ front 6 key_hash ∷ []))

-- `rollbackParams`, and `releaseRun`.
pub record RollbackParams : Type 0 where
  pub of : String
  pub reason : String
  pub config_revision : String

pub record ReleaseRun : Type 0 where
  pub env : String
  pub cluster : String
  pub git_url : String
  pub git_revision : String
  pub image_ref : String
  pub initiator : String
  pub rollback : Option RollbackParams

-- A PipelineRun: what the template made of the parameters, and the annotation with the key's hash.
pub record PipelineRun : Type 0 where
  pub body : String
  pub key_hash : Option String

-- `Started`; `object` is set on a dry run.
pub record Started : Type 0 where
  pub name : String
  pub replayed : Bool
  pub object : Option PipelineRun

-- What is read of the TriggerTemplate: its resource as a function of the parameters, none if it names
-- one that is not set.
pub data TemplateRead : Type 0 where
  template : (Dict String → Option String) → TemplateRead
  no_pipeline_run : TemplateRead
  absent : TemplateRead
  unreadable : TemplateRead

-- What the API server answers to a create besides AlreadyExists, and to the read after that.
pub data Created : Type 0 where
  accepted : Created
  rejected : Created
  unavailable : Created

pub data Reread : Type 0 where
  reads : Reread
  gone : Reread
  unreachable : Reread

pub record ApiServer : Type 0 where
  pub templates : String → TemplateRead
  pub creates : Created
  pub rereads : Reread

abbrev pub kind_of : ReleaseRun → String
kind_of p = elim p.rollback [ none ↦ "promote" | some r ↦ "rollback" ]

abbrev pub template_of : ReleaseRun → String
template_of p = elim p.rollback [ none ↦ "promote-release" | some r ↦ "rollback-release" ]

abbrev pub rollback_params : Option RollbackParams → Dict String → Dict String
rollback_params none d = d
rollback_params (some r) d =
    insert "config-revision" r.config_revision
      (insert "rollback-reason" r.reason (insert "rollback-of" r.of d))

abbrev pub params_of : String → ReleaseRun → Dict String
params_of name p = rollback_params p.rollback (
    ("pipeline-run-name", name)
    ∷ ("env", p.env)
    ∷ ("cluster", p.cluster)
    ∷ ("git-url", p.git_url)
    ∷ ("git-revision", p.git_revision)
    ∷ ("image-ref", p.image_ref)
    ∷ ("initiator", p.initiator)
    ∷ [])

abbrev pub has_hash : String → Option String → Bool
has_hash h none = h == ""
has_hash h (some s) = s == h

-- The name is taken: this key's run is a replay, any other one a conflict.
abbrev pub replay_of : String → String → Bool → PipelineRun → Answer Started
replay_of name h dry found =
    if has_hash h found.key_hash
    then gives (record { name = name; replayed = true; object = if dry then some found else none })
    else fails conflict

abbrev pub on_taken : Reread → String → String → Bool → PipelineRun → Answer Started
on_taken reads name h dry found = replay_of name h dry found
on_taken gone name h dry found = fails conflict
on_taken unreachable name h dry found = fails broken

abbrev pub Runs : Type 0
Runs = Dict PipelineRun

abbrev pub on_accepted :
    Reread
    → String
    → String
    → Bool
    → PipelineRun
    → Runs
    → Option PipelineRun
    → Runs × Answer Started
on_accepted again name h dry run runs none = (
  if dry then runs else insert name run runs,
  gives (record { name = name; replayed = false; object = if dry then some run else none }),
)
on_accepted again name h dry run runs (some found) = (runs, on_taken again name h dry found)

-- A create: the server refuses what it refuses before it looks at the name.
abbrev pub create :
    Created → Reread → String → String → Bool → PipelineRun → Runs → Runs × Answer Started
create accepted again name h dry run runs = on_accepted again name h dry run runs (lookup name runs)
create rejected again name h dry run runs = (runs, fails refused)
create unavailable again name h dry run runs = (runs, fails broken)

abbrev pub filled :
    ApiServer → String → String → Bool → Runs → Option String → Runs × Answer Started
filled api name h dry runs none = (runs, fails refused)
filled api name h dry runs (some body) =
    create api.creates api.rereads name h dry (record { body = body; key_hash = some h }) runs

abbrev pub from_template :
    ApiServer → ReleaseRun → String → Bool → Runs → TemplateRead → Runs × Answer Started
from_template api p h dry runs (template fill) =
    let name = run_name (kind_of p) p.env p.git_revision h in
    filled api name h dry runs (fill (params_of name p))
from_template api p h dry runs no_pipeline_run = (runs, fails refused)
from_template api p h dry runs absent = (runs, fails refused)
from_template api p h dry runs unreadable = (runs, fails broken)

-- `startRun`, on the runs of the application's namespace.
unfoldable pub start_run : ApiServer → ReleaseRun → String → Bool → Runs → Runs × Answer Started
start_run api p key_hash dry runs =
    from_template api p key_hash dry runs (api.templates (template_of p))
