-- ===== src/Broker/Intercept/Identity.antt =====
-- Whose events the interceptor of token-review-interceptor lets through.
use glidepath.Prelude.{
  ◌≡◌, refl, String, List, [], ◌∷◌, Option, some, none, eq_iff, arith, inl, inr, Option-cases,
}
use glidepath.Prelude.Text.{split}
use glidepath.Broker.Tokens.{Cluster, caller_of, caller_namespace, service_namespace, namespace_of}
use glidepath.Broker.Tokens.Scope.{IsCaller, caller_of-IsCaller, IsCaller-caller_of}
use glidepath.Broker.Intercept.{
  InterceptorRequest, first_header, audience_of, intercepted, continues, handle,
}

-- The request is a service account's of the namespace: its bearer token is authenticated for the
-- audience as "system:serviceaccount:<namespace>:<name>".
pub record IsServiceAccount (cl : Cluster) (r : InterceptorRequest) (ns : String) : Type 0 where
  pub user : String
  pub name : String
  pub caller : IsCaller cl (first_header r.headers "Authorization") (audience_of r) user
  pub parts : split b':' user ≡ "system" ∷ "serviceaccount" ∷ ns ∷ name ∷ []

parts_of :
    (ps : List String) (ns : String)
    → service_namespace ps ≡ some ns
    → (name : String) × (ps ≡ "system" ∷ "serviceaccount" ∷ ns ∷ name ∷ [])
parts_of [] ns h = cc
parts_of (a ∷ []) ns h = cc
parts_of (a ∷ b ∷ []) ns h = cc
parts_of (a ∷ b ∷ c ∷ []) ns h = cc
parts_of (a ∷ b ∷ c ∷ d ∷ e ∷ ps) ns h = cc
parts_of (a ∷ b ∷ c ∷ d ∷ []) ns h =
    let system : a ≡ "system" = ground (arith, eq_iff a "system", h) in
    let account : b ≡ "serviceaccount" = ground (arith, eq_iff b "serviceaccount", h) in
    let same : c ≡ ns = ground (arith, h) in (d, cc (system, account, same))

-- The interceptor lets an event go on for a namespace exactly if its request is JSON and carries
-- the bearer token of a service account of that namespace, authenticated for the audience that the
-- request names, or for cdevents-broker if it names none.
pub handle-IsServiceAccount :
    (cl : Cluster) (body : Option InterceptorRequest) (ns : String)
    → (handle cl body ≡ continues ns
        → (r : InterceptorRequest) × (body ≡ some r) × IsServiceAccount cl r ns)
      × ((r : InterceptorRequest)
          → body ≡ some r
          → IsServiceAccount cl r ns
          → handle cl body ≡ continues ns)
unfolding handle caller_namespace
handle-IsServiceAccount cl body ns = (there body, back)
  where
    by_user :
        (r : InterceptorRequest)
        → intercepted
            (namespace_of (caller_of cl (first_header r.headers "Authorization") (audience_of r)))
          ≡ continues ns
        → IsServiceAccount cl r ns
    by_user r h =
        elim (Option-cases
          (caller_of cl (first_header r.headers "Authorization") (audience_of r))) [
            | inl e ↦ absurd (ground (arith, e, h))
            | inr (user, e) ↦ elim (Option-cases (service_namespace (split b':' user))) [
              | inl n ↦ absurd (ground (arith, e, n, h))
              | inr (m, n) ↦
                  let same : m ≡ ns = ground (arith, e, n, h) in
                  let (name, p) = parts_of (split b':' user) m n in
                  rw (← same) (record {
                    user = user;
                    name = name;
                    caller =
                        caller_of-IsCaller cl (first_header r.headers "Authorization")
                          (audience_of r) user e;
                    parts = p;
                  })
            ]
          ]

    there :
        (b : Option InterceptorRequest)
        → handle cl b ≡ continues ns
        → (r : InterceptorRequest) × (b ≡ some r) × IsServiceAccount cl r ns
    there none h = cc
    there (some r) h = (r, refl, by_user r h)

    back :
        (r : InterceptorRequest)
        → body ≡ some r
        → IsServiceAccount cl r ns
        → handle cl body ≡ continues ns
    back r e s =
        let known =
          IsCaller-caller_of cl (first_header r.headers "Authorization") (audience_of r) s.user
            s.caller in
        rw (e, known, s.parts) refl
