-- ===== src/Broker/Tokens/OwnRepo.antt =====
-- The tokens for an application's own repository: /github-read-token and /agent-installation-token.
use glidepath.Prelude.{ℕ, ◌≡◌, ◌≢◌, String, true, List, [], ◌∷◌, Option, some, ◌⊎◌, get_elem?}
use glidepath.Prelude.Text.{concat}
use glidepath.Prelude.Dict.{Dict}
use glidepath.Broker.Names.{is_owner, is_app, is_repo, url_owner, equal_fold}
use glidepath.Broker.Tokens.{Repository, Cluster, App, Grant, ReadRequest, listed, read_grant}
use glidepath.Broker.Tokens.Scope.{IsCaller}

-- The repositories that are an application's own by their name.
abbrev pub IsOwnName : ReadRequest → Type 0
IsOwnName r =
    (r.repo ≡ r.app)
    ⊎ ((r.repo ≡ concat ("gitops-" ∷ r.app ∷ []))
        ⊎ (r.repo ≡ concat ("gitops-infra-" ∷ r.app ∷ [])))

-- What a caller must be to pass the check.
pub record IsAllowed (callers : List String) (caller : String) (r : ReadRequest) : Type 0 where
  pub known : listed caller callers ≡ true
  pub plain : (is_owner r.owner ≡ true) × (is_repo r.repo ≡ true) × (is_app r.app ≡ true)
  pub own_name : IsOwnName r

-- A repository of the application's own namespace that stands for the one that is asked for, with
-- its URL under the owner that is asked for.
pub record IsSource (cl : Cluster) (r : ReadRequest) (p : Repository) : Type 0 where
  pub home : String
  pub repositories : List Repository
  pub place : ℕ
  pub url_of : String
  pub in_app :
      (home ≡ concat ("app-" ∷ r.app ∷ "-cicd" ∷ []))
      ⊎ (home ≡ concat ("infra-" ∷ r.app ∷ "-cicd" ∷ []))
  pub read : cl.repositories home ≡ some repositories
  pub found : get_elem? repositories place ≡ some p
  pub named : p.name ≢ ""
  pub same : (p.name ≡ r.repo) ⊎ (concat ("gitops-" ∷ p.name ∷ []) ≡ r.repo)
  pub url : url_owner p.url ≡ some url_of
  pub owner : equal_fold url_of r.owner ≡ true

-- Who got a token for an application's own repository, and of which App with which permissions.
pub record IsServed (cl : Cluster) (callers : List String) (header audience : String)
    (body : Option ReadRequest) (a : App) (perms : Dict String) (g : Grant) : Type 0 where
  pub user : String
  pub request : ReadRequest
  pub repository : Repository
  pub caller : IsCaller cl header audience user
  pub asked : body ≡ some request
  pub allowed : IsAllowed callers user request
  pub source : IsSource cl request repository
  pub grant : g ≡ read_grant a perms request
