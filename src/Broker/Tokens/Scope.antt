-- ===== src/Broker/Tokens/Scope.antt =====
-- Whom the endpoints of token-review-interceptor give a token, and for what.
use glidepath.Prelude.{
  ℕ, suc, ◌≡◌, ◌≢◌, refl, String, true, List, [], ◌∷◌, Option, some, none, ◌==◌, eq_iff, arith, ◌⊎◌,
  inl, inr, get_elem?, Bool-cases, Option-cases,
}
use glidepath.Prelude.Text.{split, concat}
use glidepath.Broker.Names.{pr_base}
use glidepath.Broker.Tokens.{
  Repository, Cluster, platform, Grant, GitHub, granted, mint, signed, installed, exchanged,
  bearer_token, caller_of, service_namespace, maps_to, any_maps, app_namespace_owns_repo,
  verify_app_owns_repo, RepoRequest,
}

pub mint-granted : (gh : GitHub) (g h : Grant) (t : String) → mint gh g ≡ granted h t → h ≡ g
unfolding mint
mint-granted gh g h t e = by_sign (gh.sign g.app) e
  where
    by_exchange : (o : Option String) → exchanged g o ≡ granted h t → h ≡ g
    by_exchange none e' = cc
    by_exchange (some x) e' = cc

    by_lookup : (jwt : String) (o : Option ℕ) → installed gh g jwt o ≡ granted h t → h ≡ g
    by_lookup jwt none e' = cc
    by_lookup jwt (some id) e' = by_exchange (gh.exchange jwt id g.repo g.permissions) e'

    by_sign : (o : Option String) → signed gh g o ≡ granted h t → h ≡ g
    by_sign none e' = cc
    by_sign (some jwt) e' = by_lookup jwt (gh.installation jwt g.owner g.repo) e'

-- An authenticated caller of an endpoint.
pub record IsCaller (cl : Cluster) (header audience user : String) : Type 0 where
  pub bearer : bearer_token header ≢ ""
  pub reviewed : cl.review (bearer_token header) audience ≡ some user

pub caller_of-IsCaller :
    (cl : Cluster) (header audience user : String)
    → caller_of cl header audience ≡ some user
    → IsCaller cl header audience user
unfolding caller_of
caller_of-IsCaller cl header audience user h = elim (Bool-cases (bearer_token header == "")) [
  | inl e ↦ absurd (ground (arith, e))
  | inr e ↦ record {
    bearer = ground (arith, eq_iff (bearer_token header) "", e);
    reviewed = ground (arith, e);
  }
]

pub IsCaller-caller_of :
    (cl : Cluster) (header audience user : String)
    → IsCaller cl header audience user
    → caller_of cl header audience ≡ some user
unfolding caller_of
IsCaller-caller_of cl header audience user c =
    ground (arith, c.reviewed, c.bearer, eq_iff (bearer_token header) "")

-- A repository in the namespace `home` that stands for `repo`.
pub record IsMapped (cl : Cluster) (home repo : String) (r : Repository) : Type 0 where
  pub repositories : List Repository
  pub place : ℕ
  pub read : cl.repositories home ≡ some repositories
  pub found : get_elem? repositories place ≡ some r
  pub named : r.name ≢ ""
  pub same : (r.name ≡ repo) ⊎ (concat ("gitops-" ∷ r.name ∷ []) ≡ repo)

pub maps_to-same :
    (repo : String) (r : Repository)
    → maps_to repo r ≡ true
    → (r.name ≢ "") × ((r.name ≡ repo) ⊎ (concat ("gitops-" ∷ r.name ∷ []) ≡ repo))
maps_to-same repo r h = elim (Bool-cases (r.name == repo)) [
  | inl e ↦ (ground (arith, eq_iff r.name ""), inl (ground (arith, eq_iff r.name repo)))
  | inr e ↦ (
    ground (arith, eq_iff r.name ""),
    inr (ground (arith, eq_iff (concat ("gitops-" ∷ r.name ∷ [])) repo)),
  )
]

any_maps-found :
    (repo : String) (rs : List Repository)
    → any_maps repo rs ≡ true
    → (i : ℕ) × (r : Repository) × (get_elem? rs i ≡ some r) × (maps_to repo r ≡ true)
unfolding any_maps
any_maps-found repo [] h = cc
any_maps-found repo (r ∷ rs) h = elim (Bool-cases (maps_to repo r)) [
  | inl e ↦ (0, r, refl, e)
  | inr e ↦ let (i, p, at, m) = any_maps-found repo rs (ground (arith, e)) in (suc i, p, at, m)
]

app_namespace_owns_repo-IsMapped :
    (cl : Cluster) (home repo : String)
    → app_namespace_owns_repo cl home repo ≡ true
    → (r : Repository) × IsMapped cl home repo r
unfolding app_namespace_owns_repo
app_namespace_owns_repo-IsMapped cl home repo h = elim (Option-cases (cl.repositories home)) [
  | inl e ↦ absurd (ground (arith, e))
  | inr (rs, e) ↦
      let (i, r, at, m) = any_maps-found repo rs (ground (arith, e)) in
      let (n, s) = maps_to-same repo r m in
      (r, record { repositories = rs; place = i; read = e; found = at; named = n; same = s })
]

-- The namespace where an application's repositories are: its own, or for the namespace of a
-- preview that of the application that it previews.
abbrev pub IsHome : String → String → Type 0
IsHome ns home =
    (home ≡ ns)
    ⊎ ((base : String) × (pr_base ns ≡ some base) × (home ≡ concat (base ∷ "-cicd" ∷ [])))

pub verify_app_owns_repo-IsMapped :
    (cl : Cluster) (ns repo : String)
    → verify_app_owns_repo cl ns repo ≡ true
    → (home : String) × IsHome ns home × ((r : Repository) × IsMapped cl home repo r)
unfolding verify_app_owns_repo
verify_app_owns_repo-IsMapped cl ns repo h =
    elim (Bool-cases (app_namespace_owns_repo cl ns repo)) [
      | inl e ↦ (ns, inl refl, app_namespace_owns_repo-IsMapped cl ns repo e)
      | inr e ↦ elim (Option-cases (pr_base ns)) [
        | inl p ↦ absurd (ground (arith, e, p))
        | inr (base, p) ↦ (
          concat (base ∷ "-cicd" ∷ []),
          inr (base, p, refl),
          app_namespace_owns_repo-IsMapped cl (concat (base ∷ "-cicd" ∷ [])) repo
              (ground (arith, e, p)),
        )
      ]
    ]

-- Who got a token for an application's repository.
pub record IsEntitled (cl : Cluster) (header : String) (body : Option RepoRequest) (g : Grant)
    : Type 0 where
  pub user : String
  pub ns : String
  pub home : String
  pub repository : Repository
  pub caller : IsCaller cl header "github-installation-token" user
  pub service : service_namespace (split b':' user) ≡ some ns
  pub own : IsHome ns home
  pub mapped : IsMapped cl home g.repo repository
  pub asked : body ≡ some (record { owner = g.owner; repo = g.repo })
  pub app : g.app ≡ platform
