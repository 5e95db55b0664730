-- ===== src/Broker/Tokens/Callers.antt =====
-- token-review-interceptor: who calls, by the token of the request, and how a GitHub token is minted.
use glidepath.Prelude.{ℕ, String, ◌||◌, not, List, [], ◌∷◌, Option, some, none, ◌==◌, if◌then◌else◌}
use glidepath.Prelude.Text.{strip_prefix, split}
use glidepath.Prelude.Dict.{Dict}

-- A Pipelines-as-Code Repository: its name and the URL of its spec.
pub record Repository : Type 0 where
  pub name : String
  pub url : String

-- `review token audience` is the user name of an authenticated token; none if it is not, or if the
-- call fails. `repositories` lists those of a namespace, none if the call fails.
pub record Cluster : Type 0 where
  pub review : String → String → Option String
  pub repositories : String → Option (List Repository)

-- The GitHub Apps whose keys the broker holds.
pub data App : Type 0 where
  platform promoter agents : App

-- What a token is minted for; no permissions are all that the App holds.
pub record Grant : Type 0 where
  pub app : App
  pub owner : String
  pub repo : String
  pub permissions : Option (Dict String)

-- The App's signature, the lookup of an installation, and the exchange for a token.
pub record GitHub : Type 0 where
  pub sign : App → Option String
  pub installation : String → String → String → Option ℕ
  pub exchange : String → ℕ → String → Option (Dict String) → Option String

-- An HTTP error, or a token with what it was minted for.
pub data Reply : Type 0 where
  failed : ℕ → Reply
  granted : Grant → String → Reply

abbrev pub exchanged : Grant → Option String → Reply
exchanged g none = failed 502
exchanged g (some token) = granted g token

abbrev pub installed : GitHub → Grant → String → Option ℕ → Reply
installed gh g jwt none = failed 502
installed gh g jwt (some id) = exchanged g (gh.exchange jwt id g.repo g.permissions)

abbrev pub signed : GitHub → Grant → Option String → Reply
signed gh g none = failed 500
signed gh g (some jwt) = installed gh g jwt (gh.installation jwt g.owner g.repo)

-- The end of every handler: sign, find the installation, exchange.
unfoldable pub mint : GitHub → Grant → Reply
mint gh g = signed gh g (gh.sign g.app)

-- `bearerToken`: "" without the prefix.
unfoldable pub bearer_token : String → String
bearer_token header = elim (strip_prefix "Bearer " header) [ none ↦ "" | some t ↦ t ]

-- `verifyCallerUsername`, on the header: none is a 401.
unfoldable pub caller_of : Cluster → String → String → Option String
caller_of cl header audience =
    let token = bearer_token header in if token == "" then none else cl.review token audience

abbrev pub service_namespace : List String → Option String
service_namespace (a ∷ b ∷ ns ∷ name ∷ []) =
    if not (a == "system") || not (b == "serviceaccount") then none else some ns
service_namespace _ = none

abbrev pub namespace_of : Option String → Option String
namespace_of none = none
namespace_of (some user) = service_namespace (split b':' user)

-- `verifyCallerAppNamespace`, on the header.
unfoldable pub caller_namespace : Cluster → String → String → Option String
caller_namespace cl header audience = namespace_of (caller_of cl header audience)
