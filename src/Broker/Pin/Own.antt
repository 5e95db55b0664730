-- ===== src/Broker/Pin/Own.antt =====
-- Where /agent-pin of token-review-interceptor lets an application write.
use Prim.Native.String.{◌++◌ as text_append}
use glidepath.Prelude.{◌≡◌, String, true, Option, some, ◌⊎◌}
use glidepath.Prelude.Text.{cut, found, split}
use glidepath.Broker.Names.{is_plain, is_name}
use glidepath.Broker.Tokens.{Repository, Cluster, Grant, service_namespace}
use glidepath.Broker.Tokens.Scope.{IsCaller, IsHome, IsMapped}
use glidepath.Broker.Pin.{PinRequest, check_pin_request, pin_grant}

-- The namespaces of an application's pipelines.
abbrev pub IsPipelines : String → String → Type 0
IsPipelines ns app =
    (ns ≡ text_append "app-" (text_append app "-cicd"))
    ⊎ (ns ≡ text_append "infra-" (text_append app "-cicd"))

-- Who has a pin's pull request opened, for which application.
pub record IsPinned (cl : Cluster) (tenants header : String) (body : Option PinRequest)
    (app : String) (r : PinRequest) (g : Grant) : Type 0 where
  pub user : String
  pub ns : String
  pub home : String
  pub repository : Repository
  pub tenants_owner : String
  pub tenants_repo : String
  pub caller : IsCaller cl header "agent-pin" user
  pub service : service_namespace (split b':' user) ≡ some ns
  pub app_of : IsPipelines ns app
  pub plain : is_name is_plain app ≡ true
  pub asked : body ≡ some r
  pub checked : check_pin_request r ≡ true
  pub own : IsHome ns home
  pub mapped : IsMapped cl home r.repo repository
  pub target : cut b'/' tenants ≡ found tenants_owner tenants_repo
  pub grant : g ≡ pin_grant tenants_owner tenants_repo
