-- ===== src/Relay/Argo.antt =====
-- POST /argocd/<cluster>, glidepath/broker/cmd/glidepath-relay/argocd_facts.go: which sync
-- notifications are failures, and which release they are about.
use Prim.Native.Char.{code}
use glidepath.Prelude.{
  ℕ, ◌≤◌, ◌≡◌, refl, String, Bool, true, false, ◌&&◌, ◌||◌, not, List, [], ◌∷◌, Option, some, none,
  ◌==◌, ltb, leb, eqb, if◌then◌else◌, arith, All, Bool-cases, inl, inr, ◌⊎◌,
}
use glidepath.Prelude.Text.{concat, contains}
use glidepath.Prelude.Dict.{text_at}
use glidepath.Relay.Record.{ConfigMap, ReleaseRecord, record_prefix}
use glidepath.Relay.Record.Times.{TimeText}
use glidepath.Relay.Apply.{LoadResult, ready, ignore_err, Response, accepted, http_error}
use glidepath.Relay.Handler.{Registry, Request, authenticate, is_authentic, trim_prefix}

pub record ArgoFact : Type 0 where
  pub name : String
  pub app : String
  pub env : String
  pub phase : String
  pub retry_count : ℕ
  pub message : String

abbrev is_alnum : ℕ → Bool
is_alnum c = (leb b'a' c && leb c b'z') || (leb b'0' c && leb c b'9')

-- `labelValue`: the rest of a label after its first character, which must not end in a dash.
unfoldable pub label_tail : String → Bool
label_tail String.[] = true
label_tail (String.◌∷◌ c String.[]) = is_alnum (code c)
label_tail (String.◌∷◌ c (String.◌∷◌ d s)) =
    (is_alnum (code c) || eqb (code c) b'-') && label_tail (String.◌∷◌ d s)

unfoldable pub is_label : String → Bool
is_label String.[] = false
is_label (String.◌∷◌ c s) = is_alnum (code c) && label_tail s

unfoldable pub is_failing : ArgoFact → Bool
is_failing f =
    (f.phase == "Failed")
    || ((f.phase == "Error") || ((f.phase == "Running") && ltb 0 f.retry_count))

-- What `handleArgoFacts` decides before it looks for the release.
pub data Attributed : Type 0 where
  answer : Response → Attributed
  failure_of : String → ArgoFact → Attributed

abbrev check_fact : String → Option ArgoFact → Attributed
check_fact cluster none = answer (http_error 400)
check_fact cluster (some f) =
    if not (is_label f.app) || not (is_label f.env)
    then answer (accepted "unlabelled application")
    else if not (is_failing f)
    then answer (accepted "not a failure")
    else failure_of cluster f

abbrev check_body : (String → Option ArgoFact) → String → Option String → Attributed
check_body decode cluster none = answer (http_error 400)
check_body decode cluster (some b) = check_fact cluster (decode b)

pub handle_argo_facts : Registry → (String → Option ArgoFact) → Request → Attributed
handle_argo_facts reg decode r =
    let cluster = trim_prefix "/argocd/" r.path in
    if not (r.method == "POST")
    then answer (http_error 405)
    else if cluster == "" || contains b'/' cluster
    then answer (http_error 400)
    else if not (is_authentic (authenticate reg cluster r.authorization))
    then answer (http_error 401)
    else check_body decode cluster r.body

unfoldable pub in_flight : String → Bool
in_flight s = (s == "merged") || ((s == "progressing") || (s == "sync-failed"))

module _ (time : TimeText) where
  open time use {parse}

  abbrev pub created : ConfigMap → ℕ
  created cm = parse (text_at "prCreatedAt" cm.entries)

  -- The loop that picks the release: the latest in flight, the first of those that tie.
  unfoldable pub pick_from : Option ConfigMap → List ConfigMap → Option ConfigMap
  pick_from pick [] = pick
  pick_from pick (c ∷ cs) =
      pick_from
        (if in_flight (text_at "state" c.entries)
          then elim pick [
            | none ↦ some c
            | some p ↦ if ltb (created p) (created c) then some c else some p
          ]
          else pick)
        cs

  abbrev check_pick : String → String → ArgoFact → Option ConfigMap → LoadResult
  check_pick ns cluster f none = ignore_err "no merged release for this application in flight"
  check_pick ns cluster f (some cm) =
      let d = cm.entries in
      let rec : ReleaseRecord = record {
        app_namespace = text_at "appNamespace" d;
        app_name = text_at "appName" d;
        env = text_at "env" d;
        cluster = text_at "cluster" d;
        git_url = text_at "gitUrl" d;
        git_revision = text_at "gitRevision" d;
        flow_start_time = text_at "flowStartTime" d;
        config_json = text_at "configJson" d;
        chain_id = trim_prefix record_prefix cm.name;
        kind = "";
        rollback_of = "";
        image = "";
      } in
      if not (rec.app_namespace == ns)
        || ((rec.app_name == "") || (not (rec.env == f.env) || not (rec.cluster == cluster)))
      then ignore_err "record does not match the application"
      else ready rec cm

  abbrev check_list : String → String → ArgoFact → Option (List ConfigMap) → LoadResult
  check_list ns cluster f none = ignore_err "cannot list records"
  check_list ns cluster f (some cms) = check_pick ns cluster f (pick_from none cms)

  -- The closure `load`; `list ns app env cluster` is the API server's answer to the selector.
  unfoldable pub argo_load :
      (String → String → String → String → Option (List ConfigMap)) → String → ArgoFact → LoadResult
  argo_load list cluster f =
      let ns = concat ("app-" ∷ f.app ∷ "-cicd" ∷ []) in
      check_list ns cluster f (list ns f.app f.env cluster)

  -- `p` is a record in flight, and no record of the list that is in flight was created later.
  abbrev pub IsLatest : ConfigMap → List ConfigMap → Type 0
  IsLatest p = All λ c. in_flight (text_at "state" c.entries) ≡ true → created c ≤ created p

  pick_keeps :
      (q : ConfigMap) (cs : List ConfigMap)
      → in_flight (text_at "state" q.entries) ≡ true
      → (p : ConfigMap) × (pick_from (some q) cs ≡ some p)
        × (in_flight (text_at "state" p.entries) ≡ true)
        × (created q ≤ created p)
        × IsLatest p cs
  unfolding pick_from
  pick_keeps q [] h = (q, refl, h, omega arith, tt)
  pick_keeps q (c ∷ cs) h = elim (Bool-cases (in_flight (text_at "state" c.entries))) [
    | inr out ↦
        let (p, e, fl, le, all) = pick_keeps q cs h in
        (p, rw out e, fl, le, ((λ x. absurd (ground (arith, x, out))), all))
    | inl inn ↦ elim (Bool-cases (ltb (created q) (created c))) [
      | inl later ↦
          let (p, e, fl, le, all) = pick_keeps c cs inn in
          (p, rw (inn, later) e, fl, ground arith, ((λ x. le), all))
      | inr early ↦
          let (p, e, fl, le, all) = pick_keeps q cs h in
          (p, rw (inn, early) e, fl, le, ((λ x. ground arith), all))
    ]
  ]

  -- If the loop picks a release, it is in flight and none in flight was created later; if it picks
  -- none, no record of the list is in flight.
  pub pick_from-IsLatest :
      (cs : List ConfigMap)
      → ((pick_from none cs ≡ none) × All (λ c. in_flight (text_at "state" c.entries) ≡ false) cs)
        ⊎ ((p : ConfigMap) × (pick_from none cs ≡ some p)
            × (in_flight (text_at "state" p.entries) ≡ true)
            × IsLatest p cs)
  unfolding pick_from
  pick_from-IsLatest [] = inl (refl, tt)
  pick_from-IsLatest (c ∷ cs) = elim (Bool-cases (in_flight (text_at "state" c.entries))) [
    | inl inn ↦
        let (p, e, fl, le, all) = pick_keeps c cs inn in inr (p, rw inn e, fl, ((λ x. le), all))
    | inr out ↦ elim (pick_from-IsLatest cs) [
      | inl (e, none_in) ↦ inl (rw out e, (out, none_in))
      | inr (p, e, fl, all) ↦ inr (p, rw out e, fl, ((λ x. absurd (ground (arith, x, out))), all))
    ]
  ]
