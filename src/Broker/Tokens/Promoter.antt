-- ===== src/Broker/Tokens/Promoter.antt =====
-- promoter.go of token-review-interceptor: /promoter-token.
use glidepath.Prelude.{
  ℕ, String, Bool, ◌&&◌, ◌||◌, not, [], ◌∷◌, Option, some, none, ◌==◌, if◌then◌else◌,
}
use glidepath.Prelude.Text.{Cut, found, missing, cut}
use glidepath.Prelude.Dict.{Dict}
use glidepath.Broker.Names.{is_owner, is_gitops_repo}
use glidepath.Broker.Tokens.Callers.{
  Cluster, platform, promoter, Grant, GitHub, Reply, failed, mint, caller_of,
}

-- `promoterConfig`, whether the App's credentials are loaded, and `promoterTokenRequest`.
pub record PromoterConfig : Type 0 where
  pub caller : String
  pub dispatch_repo : String
  pub app_loaded : Bool

pub record PromoterRequest : Type 0 where
  pub purpose : String
  pub owner : String
  pub repo : String

pub data PromoterScope : Type 0 where
  refused : ℕ → PromoterScope
  scoped : Grant → PromoterScope

abbrev pub dispatch_scope : Bool → Cut → PromoterScope
dispatch_scope is_loaded missing = refused 503
dispatch_scope is_loaded (found owner repo) =
    if (owner == "") || (repo == "")
    then refused 503
    else if not is_loaded
    then refused 503
    else scoped (record {
      app = promoter;
      owner = owner;
      repo = repo;
      permissions = some (("actions", "write") ∷ []);
    })

abbrev pub release_permissions : Dict String
release_permissions = ("checks", "write") ∷ ("contents", "read") ∷ ("pull_requests", "write") ∷ []

-- `scopeFor`.
unfoldable pub scope_for : PromoterConfig → String → PromoterRequest → PromoterScope
scope_for cfg caller r =
    if cfg.caller == ""
    then refused 503
    else if not (caller == cfg.caller)
    then refused 403
    else if r.purpose == "dispatch"
    then dispatch_scope cfg.app_loaded (cut b'/' cfg.dispatch_repo)
    else if r.purpose == "release-pr"
    then if not (is_owner r.owner) || not (is_gitops_repo r.repo)
      then refused 403
      else scoped (record {
        app = platform;
        owner = r.owner;
        repo = r.repo;
        permissions = some release_permissions;
      })
    else refused 400

abbrev pub promoter_scoped : GitHub → PromoterScope → Reply
promoter_scoped gh (refused code) = failed code
promoter_scoped gh (scoped g) = mint gh g

abbrev pub promoter_asked : GitHub → PromoterConfig → String → Option PromoterRequest → Reply
promoter_asked gh cfg caller none = failed 400
promoter_asked gh cfg caller (some r) = promoter_scoped gh (scope_for cfg caller r)

abbrev pub promoter_known : GitHub → PromoterConfig → Option PromoterRequest → Option String → Reply
promoter_known gh cfg body none = failed 401
promoter_known gh cfg body (some caller) = promoter_asked gh cfg caller body

-- `withApp`: credentials that were not there at the start are loaded once they can be.
unfoldable pub with_app : Bool → PromoterConfig → PromoterConfig
with_app loadable cfg =
    if not (cfg.caller == "") && not cfg.app_loaded
    then record cfg { app_loaded = loadable }
    else cfg

-- `handlePromoterToken`: the configuration after it, and its answer.
unfoldable pub handle_promoter_token :
    Cluster
    → GitHub
    → Bool
    → PromoterConfig
    → String
    → Option PromoterRequest
    → PromoterConfig × Reply
handle_promoter_token cl gh loadable startup header body =
    let cfg = with_app loadable startup in
    (cfg, promoter_known gh cfg body (caller_of cl header "glidepath-promoter"))
