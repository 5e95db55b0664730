-- ===== src/Broker/Tokens/Promotion.antt =====
-- /promoter-token of token-review-interceptor: the one promoter, and its two purposes.
use glidepath.Prelude.{◌≡◌, ◌≢◌, String, true, [], ◌∷◌, Option, some}
use glidepath.Prelude.Text.{cut, found}
use glidepath.Broker.Names.{is_owner, is_gitops_repo}
use glidepath.Broker.Tokens.{
  Cluster, platform, promoter, Grant, PromoterConfig, PromoterRequest, release_permissions,
}
use glidepath.Broker.Tokens.Scope.{IsCaller}

-- The two purposes that a promoter's token can have.
pub data IsPurpose (cfg : PromoterConfig) (r : PromoterRequest) (g : Grant) : Type 0 where
  dispatch :
      r.purpose ≡ "dispatch"
      → cfg.app_loaded ≡ true
      → cut b'/' cfg.dispatch_repo ≡ found g.owner g.repo
      → g.app ≡ promoter
      → g.permissions ≡ some (("actions", "write") ∷ [])
      → IsPurpose cfg r g
  release_pr :
      r.purpose ≡ "release-pr"
      → is_owner r.owner ≡ true
      → is_gitops_repo r.repo ≡ true
      → g ≡ record {
        app = platform;
        owner = r.owner;
        repo = r.repo;
        permissions = some release_permissions;
      }
      → IsPurpose cfg r g

-- Who got a promoter's token.
pub record IsPromoter (cl : Cluster) (cfg : PromoterConfig) (header : String)
    (body : Option PromoterRequest) (g : Grant) : Type 0 where
  pub request : PromoterRequest
  pub configured : cfg.caller ≢ ""
  pub caller : IsCaller cl header "glidepath-promoter" cfg.caller
  pub asked : body ≡ some request
  pub purpose : IsPurpose cfg request g
