-- ===== src/Relay/Handler.antt =====
-- POST /facts/<cluster> of glidepath/broker/cmd/glidepath-relay: `authenticate` of main.go and
-- `handleFacts` of facts.go up to its call of `apply`. JSON texts are read by functions that the
-- handlers are given.
pub mod Lookups
pub mod Trust
use glidepath.Prelude.{
  ℕ, suc, String, Bool, true, false, ◌&&◌, ◌||◌, not, List, [], ◌∷◌, Option, some, none, ◌==◌,
  if◌then◌else◌,
}
use glidepath.Prelude.Text.{strip_prefix, contains, concat, decimal}
use glidepath.Prelude.Dict.{Dict, lookup, text_at}
use glidepath.Relay.Reducer.{Status}
use glidepath.Relay.Record.{
  ConfigMap, ReleaseId, parse_release_id, Loaded, loaded, failed, LoadError, load_record,
  bad_namespace, not_found, too_old, misplaced, ReleaseRecord,
}
use glidepath.Relay.Apply.{LoadResult, ready, ignore_err, bad_err, Response, accepted, http_error}

-- What `authenticate` reads: the cluster-registry ConfigMap's data, the `relaySecretName` of an
-- entry (none if it is not JSON), and the data of a Secret.
pub record Registry : Type 0 where
  pub entries : Option (Dict String)
  pub secret_name : String → Option String
  pub secret : String → Option (Dict String)

pub data Auth : Type 0 where
  authentic : Auth
  no_bearer no_registry no_entry bad_entry no_secret_name no_secret no_token mismatch : Auth

abbrev pub check_token : String → Option (Dict String) → Auth
check_token provided none = no_secret
check_token provided (some data') = elim (lookup "token" data') [
  | none ↦ no_token
  | some expected ↦ if expected == provided then authentic else mismatch
]

abbrev pub check_secret : Registry → String → Option String → Auth
check_secret reg provided none = bad_entry
check_secret reg provided (some name) =
    if name == "" then no_secret_name else check_token provided (reg.secret name)

abbrev pub check_entry : Registry → String → Option String → Auth
check_entry reg provided none = no_entry
check_entry reg provided (some raw) = check_secret reg provided (reg.secret_name raw)

abbrev pub check_registry : Registry → String → String → Option (Dict String) → Auth
check_registry reg cluster provided none = no_registry
check_registry reg cluster provided (some d) = check_entry reg provided (lookup cluster d)

unfoldable pub authenticate : Registry → String → String → Auth
authenticate reg cluster header = elim (strip_prefix "Bearer " header) [
  | none ↦ no_bearer
  | some provided ↦ check_registry reg cluster provided reg.entries
]

-- An `int64`; `decode` keeps the range.
pub data ℤ : Type 0 where
  pos : ℕ → ℤ
  negsuc : ℕ → ℤ

-- `fmt.Sprint` of an `int64`.
unfoldable pub int_text : ℤ → String
int_text (pos n) = decimal n
int_text (negsuc n) = concat ("-" ∷ decimal (suc n) ∷ [])

-- The struct `fact`.
pub record Fact : Type 0 where
  pub ns : String
  pub name : String
  pub generation : ℤ
  pub annotations : Dict String
  pub status : Status
  pub observed_generation : String

pub record Request : Type 0 where
  pub method : String
  pub path : String
  pub authorization : String
  -- at most 2 ^ 16 bytes of the body; none if it cannot be read
  pub body : Option String

-- What the handler decides before `apply`: an answer, or the fact with the release that it names.
pub data Admitted : Type 0 where
  answer : Response → Admitted
  admit : String → String → ReleaseId → Fact → Admitted

abbrev pub check_release : String → String → Fact → Option ReleaseId → Admitted
check_release cluster rel_id f none = answer (http_error 400)
check_release cluster rel_id f (some id) =
    if not (id.cluster == cluster)
    then answer (http_error 400)
    else if not (f.observed_generation == int_text f.generation)
    then answer (accepted "stale-generation")
    else admit cluster rel_id id f

abbrev pub check_fact : String → Option Fact → Admitted
check_fact cluster none = answer (http_error 400)
check_fact cluster (some f) =
    let rel_id = text_at "hangar.io/release-id" f.annotations in
    if rel_id == ""
    then answer (accepted "untracked")
    else check_release cluster rel_id f (parse_release_id rel_id)

abbrev pub check_body : (String → Option Fact) → String → Option String → Admitted
check_body decode cluster none = answer (http_error 400)
check_body decode cluster (some b) = check_fact cluster (decode b)

abbrev pub is_authentic : Auth → Bool
is_authentic authentic = true
is_authentic _ = false

abbrev pub trim_prefix : String → String → String
trim_prefix p s = elim (strip_prefix p s) [ none ↦ s | some r ↦ r ]

unfoldable pub handle_facts : Registry → (String → Option Fact) → Request → Admitted
handle_facts reg decode r =
    let cluster = trim_prefix "/facts/" r.path in
    if not (r.method == "POST")
    then answer (http_error 405)
    else if cluster == "" || contains b'/' cluster
    then answer (http_error 400)
    else if not (is_authentic (authenticate reg cluster r.authorization))
    then answer (http_error 401)
    else check_body decode cluster r.body

-- The closure `load`: a record that does not fit the fact is rejected, one that is not there ignored.
abbrev pub check_match : String → String → Loaded → LoadResult
check_match cluster env (failed bad_namespace) = ignore_err "no-record: app-namespace"
check_match cluster env (failed not_found) = ignore_err "no-record: not found"
check_match cluster env (failed too_old) = ignore_err "no-record: predates the fields"
check_match cluster env (failed misplaced) = ignore_err "no-record: misplaced"
check_match cluster env (loaded rec cm) =
    if not (rec.env == env) || not (rec.cluster == cluster)
    then bad_err "record is for another environment"
    else ready rec cm

unfoldable pub facts_load :
    (String → String → Option ConfigMap) → String → ReleaseId → Fact → LoadResult
facts_load get cluster id f =
    check_match cluster id.env
      (load_record get (text_at "hangar.io/app-namespace" f.annotations) id.chain)
