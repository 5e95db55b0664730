-- ===== src/Broker/Examples.antt =====
-- The token endpoints asked by one application, the API, an agent and the promoter.
use glidepath.Prelude.{◌≡◌, refl, String, false, List, [], ◌∷◌, some, none, ◌==◌, if◌then◌else◌}
use glidepath.Prelude.Text.{strip_prefix, split}
use glidepath.Broker.Names.{equal_fold}
use glidepath.Broker.Tokens.{
  Cluster, platform, promoter, Grant, GitHub, bearer_token, caller_of, caller_namespace,
  RepoRequest, PromoterConfig, PromoterRequest, ReadRequest,
}
use glidepath.Broker.Pin.{PinRequest}
use glidepath.Broker.Intercept.{InterceptorRequest, first_header, continues, handle}
use glidepath.Broker.Intercept.Identity.{IsServiceAccount, handle-IsServiceAccount}

abbrev cluster : Cluster
cluster = record {
  review = λ token audience.
      if token == "p"
      then some "system:serviceaccount:app-shop-pr-9:notify"
      else if token == "a"
      then some "system:serviceaccount:glidepath:api"
      else none;
  repositories = λ ns.
      if ns == "app-shop-cicd"
      then some (record { name = "shop"; url = "https://github.com/Hangar/shop.git" } ∷ [])
      else none;
}

abbrev github : GitHub
github = record {
  sign = λ app. some "jwt";
  installation = λ jwt owner repo. some 7;
  exchange = λ jwt id repo permissions. some "ghs";
}

abbrev preview_request : RepoRequest
preview_request = record { owner = "hangar"; repo = "gitops-shop" }

abbrev preview_grant : Grant
preview_grant = record {
  app = platform;
  owner = "hangar";
  repo = "gitops-shop";
  permissions = none;
}

-- The preview's namespace is app-shop-pr-9, and its application's app-shop-cicd.
abbrev preview_cluster : Cluster
preview_cluster = record cluster {
  review = λ token audience. some "system:serviceaccount:app-shop-pr-9:notify";
}

abbrev post : String
post = "POST"

abbrev shop_read : ReadRequest
shop_read = record { owner = "hangar"; repo = "shop"; app = "shop" }

abbrev api : List String
api = "system:serviceaccount:glidepath:api" ∷ []

abbrev promoter_config : PromoterConfig
promoter_config = record {
  caller = "system:serviceaccount:glidepath:api";
  dispatch_repo = "hangar/promoter";
  app_loaded = false;
}

abbrev dispatch_request : PromoterRequest
dispatch_request = record { purpose = "dispatch"; owner = ""; repo = "" }

abbrev dispatch_grant : Grant
dispatch_grant = record {
  app = promoter;
  owner = "hangar";
  repo = "promoter";
  permissions = some (("actions", "write") ∷ []);
}

-- An agent's definition, pinned for the application of the caller's namespace.
abbrev pipeline_cluster : Cluster
pipeline_cluster = record cluster {
  review = λ token audience. some "system:serviceaccount:app-shop-cicd:pipeline";
}

abbrev pin_request : PinRequest
pin_request = record {
  owner = "Hangar";
  repo = "shop";
  name = "helper";
  path = "agents/helper.yaml";
  commit = "0123456789abcdef0123456789abcdef01234567";
  group = "group:default/shop.team";
  description = "one line";
  remove = false;
  body = "";
}

abbrev event_request : InterceptorRequest
event_request = record {
  headers = ("Accept", "*/*" ∷ []) ∷ ("X-Trace", []) ∷ ("authorization", "Bearer p" ∷ []) ∷ [];
  audience = "";
}

handle-IsServiceAccount_example :
    (handle pipeline_cluster (some event_request) ≡ continues "app-shop-cicd"
      → (r : InterceptorRequest) × (some event_request ≡ some r)
        × IsServiceAccount pipeline_cluster r "app-shop-cicd")
    × ((r : InterceptorRequest)
        → some event_request ≡ some r
        → IsServiceAccount pipeline_cluster r "app-shop-cicd"
        → handle pipeline_cluster (some event_request) ≡ continues "app-shop-cicd")
handle-IsServiceAccount_example =
    handle-IsServiceAccount pipeline_cluster (some event_request) "app-shop-cicd"

-- It is let through: the header's name is matched in any case.
event_continues : handle pipeline_cluster (some event_request) ≡ continues "app-shop-cicd"
unfolding handle first_header equal_fold caller_namespace caller_of bearer_token strip_prefix split
event_continues = refl
