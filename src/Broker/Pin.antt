-- ===== src/Broker/Pin.antt =====
-- /agent-pin of glidepath/broker/cmd/token-review-interceptor/agentpin.go: everything that is decided
-- before `openPinPR` writes the pull request with the token.
pub mod Own
use glidepath.Prelude.Text.Classes.{bytes}
use Prim.Native.Char.{code}
use glidepath.Prelude.{
  ℕ, ◌+◌, String, Bool, true, false, ◌&&◌, ◌||◌, not, List, [], ◌∷◌, Option, some, none, ◌==◌, ltb,
  leb, eqb, if◌then◌else◌,
}
use glidepath.Prelude.Text.{Cut, found, missing, cut, contains, strip_prefix, concat}
use glidepath.Prelude.Dict.{Dict}
use glidepath.Relay.Argo.{is_label}
use glidepath.Broker.Names.{is_plain, or_dash, is_digit, every, is_name, is_owner, size}
use glidepath.Broker.Tokens.{
  Cluster, GitHub, Grant, platform, Reply, failed, granted, mint, caller_namespace,
  verify_app_owns_repo, agent_permissions,
}

pub record PinRequest : Type 0 where
  pub owner : String
  pub repo : String
  pub name : String
  pub path : String
  pub commit : String
  pub group : String
  pub description : String
  pub remove : Bool
  pub body : String

-- What stands before an ending.
unfoldable pub strip_suffix : String → String → Option String
strip_suffix suffix String.[] = if suffix == "" then some "" else none
strip_suffix suffix (String.◌∷◌ c s) =
    let rest = strip_suffix suffix s in
    if String.◌∷◌ c s == suffix
    then some ""
    else elim rest [ none ↦ none | some b ↦ some (String.◌∷◌ c b) ]

abbrev pub named_app : Option String → Option String
named_app none = none
named_app (some a) = if is_name is_plain a then some a else none

abbrev pub after_kind : Option String → Option String
after_kind none = none
after_kind (some rest) = named_app (strip_suffix "-cicd" rest)

abbrev pub app_kind : String → Option String → Option String
app_kind ns (some rest) = after_kind (some rest)
app_kind ns none = after_kind (strip_prefix "infra-" ns)

-- `appOfNamespace`, with its pattern `pinNamespace`.
unfoldable pub app_of_namespace : String → Option String
app_of_namespace ns = app_kind ns (strip_prefix "app-" ns)

-- `pinName`.
unfoldable pub is_pin_name : String → Bool
is_pin_name s = is_label s && leb (size s) 63

abbrev is_hex : ℕ → Bool
is_hex c = is_digit c || (leb b'a' c && leb c b'f')

-- `pinCommit`.
unfoldable pub is_commit : String → Bool
is_commit s = every is_hex s && eqb (size s) 40

abbrev is_team_char : ℕ → Bool
is_team_char c = is_plain c || (eqb c b'.' || (eqb c b'_' || eqb c b'-'))

abbrev is_group : Cut → Bool
is_group missing = false
is_group (found a b) =
    not (a == "") && (every (or_dash is_plain) a && (not (b == "") && every is_team_char b))

abbrev is_group_of : Option String → Bool
is_group_of none = false
is_group_of (some r) = is_group (cut b'/' r)

-- `pinOwner`.
unfoldable pub is_pin_owner : String → Bool
is_pin_owner s = is_group_of (strip_prefix "group:" s)

-- `checkPinRequest`: whether it finds no error.
unfoldable pub check_pin_request : PinRequest → Bool
check_pin_request r =
    (is_owner r.owner && is_pin_name r.repo)
    && (is_pin_name r.name
        && (((r.path == concat ("agents/" ∷ r.name ∷ ".yaml" ∷ []))
              || (r.path == concat ("agents/" ∷ r.name ∷ ".yml" ∷ [])))
            && (is_commit r.commit
                && ((r.remove || is_pin_owner r.group)
                    && (not (
                          ltb 200 (bytes r.description)
                          || (contains 10 r.description || contains 13 r.description))
                        && not (ltb 60000 (bytes r.body)))))))

-- The answer: an error, or `openPinPR` for an application with a token and what it was minted for.
pub data PinReply : Type 0 where
  pin_failed : ℕ → PinReply
  opens : String → PinRequest → Grant → String → PinReply

abbrev pub minted : String → PinRequest → Reply → PinReply
minted app r (failed c) = pin_failed c
minted app r (granted g token) = opens app r g token

abbrev pub pin_grant : String → String → Grant
pin_grant owner repo = record {
  app = platform;
  owner = owner;
  repo = repo;
  permissions = some agent_permissions;
}

abbrev pub pin_asked :
    Cluster → GitHub → String → String → String → String → Option PinRequest → PinReply
pin_asked cl gh o rp ns app none = pin_failed 400
pin_asked cl gh o rp ns app (some r) =
    if not (check_pin_request r)
    then pin_failed 400
    else if not (verify_app_owns_repo cl ns r.repo)
    then pin_failed 403
    else minted app r (mint gh (pin_grant o rp))

abbrev pub pin_app :
    Cluster → GitHub → String → String → Option PinRequest → String → Option String → PinReply
pin_app cl gh o rp body ns none = pin_failed 403
pin_app cl gh o rp body ns (some app) = pin_asked cl gh o rp ns app body

abbrev pub pin_caller :
    Cluster → GitHub → String → String → Option PinRequest → Option String → PinReply
pin_caller cl gh o rp body none = pin_failed 401
pin_caller cl gh o rp body (some ns) = pin_app cl gh o rp body ns (app_of_namespace ns)

abbrev pub pin_configured : Cluster → GitHub → String → String → Option PinRequest → Cut → PinReply
pin_configured cl gh method header body missing = pin_failed 503
pin_configured cl gh method header body (found o rp) =
    if not (is_owner o) || (rp == "")
    then pin_failed 503
    else if not (method == "POST")
    then pin_failed 405
    else pin_caller cl gh o rp body (caller_namespace cl header "agent-pin")

-- `handleAgentPin`; `tenants` is AGENT_PIN_TENANTS_REPO.
unfoldable pub handle_agent_pin :
    Cluster → GitHub → String → String → String → Option PinRequest → PinReply
handle_agent_pin cl gh tenants method header body =
    pin_configured cl gh method header body (cut b'/' tenants)
