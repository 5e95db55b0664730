-- ===== src/Broker/Tokens.antt =====
-- The endpoints of glidepath/broker/cmd/token-review-interceptor that answer with a GitHub token:
-- main.go, promoter.go, githubread.go and agenttoken.go, with the minting of
-- glidepath/broker/internal/githubapp. The cluster and GitHub are functions that answer the calls.
pub mod Scope
pub mod OwnRepo
pub mod Promotion
pub mod Callers
pub mod Promoter
unfoldable pub use glidepath.Broker.Tokens.Callers.{
  exchanged, installed, signed, mint, bearer_token, caller_of, service_namespace, namespace_of,
  caller_namespace,
}
pub use glidepath.Broker.Tokens.Callers.{
  Repository, Cluster, App, platform, promoter, agents, Grant, GitHub, Reply, failed, granted,
}
unfoldable pub use glidepath.Broker.Tokens.Promoter.{
  dispatch_scope, release_permissions, scope_for, promoter_scoped, promoter_asked, promoter_known,
  with_app, handle_promoter_token,
}
pub use glidepath.Broker.Tokens.Promoter.{
  PromoterConfig, PromoterRequest, PromoterScope, refused, scoped,
}
use glidepath.Prelude.{
  ℕ, String, Bool, true, false, ◌&&◌, ◌||◌, not, List, [], ◌∷◌, Option, some, none, ◌==◌,
  if◌then◌else◌,
}
use glidepath.Prelude.Text.{Cut, found, missing, cut, strip_prefix, split, concat}
use glidepath.Prelude.Dict.{Dict}
use glidepath.Broker.Names.{
  is_owner, is_gitops_repo, is_app, is_repo, pr_base, url_owner, equal_fold,
}

-- The name rule of `appNamespaceOwnsRepo`.
abbrev pub maps_to : String → Repository → Bool
maps_to repo r =
    not (r.name == "") && ((r.name == repo) || (concat ("gitops-" ∷ r.name ∷ []) == repo))

unfoldable pub any_maps : String → List Repository → Bool
any_maps repo [] = false
any_maps repo (r ∷ rs) = maps_to repo r || any_maps repo rs

abbrev pub listed_maps : String → Option (List Repository) → Bool
listed_maps repo none = false
listed_maps repo (some rs) = any_maps repo rs

-- `appNamespaceOwnsRepo`.
unfoldable pub app_namespace_owns_repo : Cluster → String → String → Bool
app_namespace_owns_repo cl ns repo = listed_maps repo (cl.repositories ns)

abbrev pub preview_owns : Cluster → String → Option String → Bool
preview_owns cl repo none = false
preview_owns cl repo (some base) = app_namespace_owns_repo cl (concat (base ∷ "-cicd" ∷ [])) repo

-- `verifyAppOwnsRepo`: a preview's namespace counts as the application's own.
unfoldable pub verify_app_owns_repo : Cluster → String → String → Bool
verify_app_owns_repo cl ns repo =
    app_namespace_owns_repo cl ns repo || preview_owns cl repo (pr_base ns)

pub record RepoRequest : Type 0 where
  pub owner : String
  pub repo : String

abbrev pub installation_asked : Cluster → GitHub → String → Option RepoRequest → Reply
installation_asked cl gh ns none = failed 400
installation_asked cl gh ns (some b) =
    if (b.owner == "") || (b.repo == "")
    then failed 400
    else if not (verify_app_owns_repo cl ns b.repo)
    then failed 403
    else mint gh (record { app = platform; owner = b.owner; repo = b.repo; permissions = none })

abbrev pub installation_known : Cluster → GitHub → Option RepoRequest → Option String → Reply
installation_known cl gh body none = failed 401
installation_known cl gh body (some ns) = installation_asked cl gh ns body

-- `handleGitHubInstallationToken`; `body` is the decoded request, none if it is not JSON.
unfoldable pub handle_installation_token : Cluster → GitHub → String → Option RepoRequest → Reply
handle_installation_token cl gh header body =
    installation_known cl gh body (caller_namespace cl header "github-installation-token")

-- `githubReadRequest`.
pub record ReadRequest : Type 0 where
  pub owner : String
  pub repo : String
  pub app : String

unfoldable pub listed : String → List String → Bool
listed c [] = false
listed c (d ∷ ds) = (d == c) || listed c ds

abbrev pub no_callers : List String → Bool
no_callers [] = true
no_callers (c ∷ cs) = false

-- The repository names that can be an application's own.
abbrev pub is_own_name : ReadRequest → Bool
is_own_name r =
    (r.repo == r.app)
    || ((r.repo == concat ("gitops-" ∷ r.app ∷ []))
        || (r.repo == concat ("gitops-infra-" ∷ r.app ∷ [])))

-- `githubReadCheck`: none is accepted, some is the error's status.
unfoldable pub github_read_check : List String → String → ReadRequest → Option ℕ
github_read_check callers caller r =
    if no_callers callers
    then some 503
    else if not (listed caller callers)
    then some 403
    else if not (is_owner r.owner) || (not (is_repo r.repo) || not (is_app r.app))
    then some 400
    else if not (is_own_name r)
    then some 403
    else none

-- `agentTokenCheck`.
unfoldable pub agent_token_check : List String → String → ReadRequest → Option ℕ
agent_token_check callers caller r =
    if no_callers callers
    then some 503
    else if not (listed caller callers)
    then some 403
    else github_read_check (caller ∷ []) caller r

abbrev pub same_owner : String → Option String → Bool
same_owner owner none = false
same_owner owner (some o) = equal_fold o owner

-- The name rule and the URL's owner.
abbrev pub is_source : ReadRequest → Repository → Bool
is_source r p = maps_to r.repo p && same_owner r.owner (url_owner p.url)

unfoldable pub any_source : ReadRequest → List Repository → Bool
any_source r [] = false
any_source r (p ∷ ps) = is_source r p || any_source r ps

abbrev pub listed_source : ReadRequest → Option (List Repository) → Bool
listed_source r none = false
listed_source r (some ps) = any_source r ps

-- `githubReadOwns`.
unfoldable pub github_read_owns : Cluster → ReadRequest → Bool
github_read_owns cl r =
    listed_source r (cl.repositories (concat ("app-" ∷ r.app ∷ "-cicd" ∷ [])))
    || listed_source r (cl.repositories (concat ("infra-" ∷ r.app ∷ "-cicd" ∷ [])))

abbrev pub read_permissions : Dict String
read_permissions = ("contents", "read") ∷ ("pull_requests", "read") ∷ ("metadata", "read") ∷ []

abbrev pub agent_permissions : Dict String
agent_permissions = ("contents", "write") ∷ ("pull_requests", "write") ∷ ("metadata", "read") ∷ []

abbrev pub read_grant : App → Dict String → ReadRequest → Grant
read_grant a perms r = record { app = a; owner = r.owner; repo = r.repo; permissions = some perms }

abbrev pub read_checked :
    Cluster → GitHub → App → Dict String → Bool → ReadRequest → Option ℕ → Reply
read_checked cl gh a perms is_loaded r (some code) = failed code
read_checked cl gh a perms is_loaded r none =
    if not (github_read_owns cl r)
    then failed 403
    else if not is_loaded
    then failed 503
    else mint gh (read_grant a perms r)

-- What the two handlers for an application's own repository do with a caller and a request.
abbrev pub own_asked :
    Cluster
    → GitHub
    → App
    → Dict String
    → Bool
    → (String → ReadRequest → Option ℕ)
    → Option ReadRequest
    → Option String
    → Reply
own_asked cl gh a perms is_loaded check body none = failed 401
own_asked cl gh a perms is_loaded check none (some caller) = failed 400
own_asked cl gh a perms is_loaded check (some r) (some caller) =
    read_checked cl gh a perms is_loaded r (check caller r)

-- `handleGitHubReadToken`.
unfoldable pub handle_read_token :
    Cluster → GitHub → List String → String → String → Option ReadRequest → Reply
handle_read_token cl gh callers method header body =
    if not (method == "POST")
    then failed 405
    else own_asked cl gh platform read_permissions true (github_read_check callers) body
        (caller_of cl header "github-read-token")

-- `handleAgentInstallationToken`; `is_loaded` says whether `loader.get` answers credentials.
unfoldable pub handle_agent_token :
    Cluster → GitHub → List String → Bool → String → String → Option ReadRequest → Reply
handle_agent_token cl gh callers is_loaded method header body =
    if not (method == "POST")
    then failed 405
    else own_asked cl gh agents agent_permissions is_loaded (agent_token_check callers) body
        (caller_of cl header "agent-installation-token")
