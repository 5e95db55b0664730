-- ===== src/Relay/Handler/Trust.antt =====
-- The trust boundary of glidepath-relay: an authenticated cluster reports on its own releases only.
use Prim.Native.String.{◌++◌ as text_append}
use glidepath.Prelude.{
  String, ◌≡◌, ◌≢◌, ◌∙◌, true, false, [], ◌∷◌, Option, some, none, arith, ◌==◌, eq_iff,
  Option-cases, Bool-cases, inl, inr, ◌⊎◌, refl,
}
use glidepath.Prelude.Text.{strip_prefix, contains, concat, has_prefix}
use glidepath.Prelude.Text.Cuts.{strip_prefix-some, strip_prefix-append}
use glidepath.Prelude.Dict.{Dict, lookup, text_at}
use glidepath.Relay.Record.{
  ConfigMap, ReleaseId, parse_release_id, load_record, ReleaseRecord, record_prefix,
}
use glidepath.Relay.Apply.{ready}
use glidepath.Relay.Handler.{
  Registry, authentic, authenticate, Fact, Request, admit, handle_facts, facts_load, check_body,
  check_release, trim_prefix, int_text,
}
use glidepath.Relay.Handler.Lookups.{
  token_matches, secret_read, entry_read, registry_read, registry_given, bearer_given,
}

-- The caller showed the token of the secret that the registry names for the cluster.
pub record Holds (reg : Registry) (cluster header : String) : Type 0 where
  pub entries : Dict String
  pub raw : String
  pub name : String
  pub tokens : Dict String
  pub provided : String
  pub registered : reg.entries ≡ some entries
  pub entry : lookup cluster entries ≡ some raw
  pub named : reg.secret_name raw ≡ some name
  pub name_set : name ≢ ""
  pub stored : reg.secret name ≡ some tokens
  pub bearer : strip_prefix "Bearer " header ≡ some provided
  pub token : lookup "token" tokens ≡ some provided

-- `authenticate` succeeds only for a caller that presents, behind "Bearer ", the text under "token"
-- of the secret that the registry's entry for this very cluster names.
pub authenticate-Holds :
    (reg : Registry) (cluster header : String)
    → authenticate reg cluster header ≡ authentic
    → Holds reg cluster header
authenticate-Holds reg cluster header h =
    let (provided, bearer, h₁) = bearer_given reg cluster header h in
    let (d, registered, h₂) = registry_given reg cluster provided h₁ in
    let (raw, entry, h₃) = registry_read reg cluster provided d h₂ in
    let (name, named, h₄) = entry_read reg raw provided h₃ in
    let (tokens, stored) = secret_read reg name provided h₄ in
    let (name_set, token) = token_matches reg name provided tokens stored h₄ in
    record {
      entries = d;
      raw = raw;
      name = name;
      tokens = tokens;
      provided = provided;
      registered = registered;
      entry = entry;
      named = named;
      name_set = name_set;
      stored = stored;
      bearer = bearer;
      token = token;
    }

-- What is known of a fact that reaches `apply`.
pub record IsTrusted (reg : Registry) (decode : String → Option Fact) (r : Request)
    (cluster rel_id : String) (id : ReleaseId) (f : Fact) : Type 0 where
  pub post : r.method ≡ "POST"
  pub path :
      (r.path ≡ text_append "/facts/" cluster)
      ⊎ ((strip_prefix "/facts/" r.path ≡ none) × (r.path ≡ cluster))
  pub known : authenticate reg cluster r.authorization ≡ authentic
  pub named : cluster ≢ ""
  pub one_segment : contains b'/' cluster ≡ false
  pub body : String
  pub received : r.body ≡ some body
  pub means : decode body ≡ some f
  pub annotated : text_at "hangar.io/release-id" f.annotations ≡ rel_id
  pub tracked : rel_id ≢ ""
  pub parsed : parse_release_id rel_id ≡ some id
  pub own_cluster : id.cluster ≡ cluster
  pub observed : f.observed_generation ≡ int_text f.generation

trimmed :
    (s : String)
    → (s ≡ text_append "/facts/" (trim_prefix "/facts/" s))
      ⊎ ((strip_prefix "/facts/" s ≡ none) × (s ≡ trim_prefix "/facts/" s))
trimmed s = elim (Option-cases (strip_prefix "/facts/" s)) [
  | inl e ↦ rw (trim_prefix, e) (inr (refl, refl))
  | inr (r, e) ↦ rw (trim_prefix, e) (inl (strip_prefix-some "/facts/" s r e))
]

trim-path :
    (s cluster : String)
    → (s ≡ text_append "/facts/" cluster) ⊎ ((strip_prefix "/facts/" s ≡ none) × (s ≡ cluster))
    → trim_prefix "/facts/" s ≡ cluster
trim-path s cluster (inl e) = rw (e, trim_prefix, strip_prefix-append "/facts/" cluster) refl
trim-path s cluster (inr (e, q)) = rw (trim_prefix, e) q

release_checked :
    (cluster rel rel_id c : String) (f g : Fact) (id : ReleaseId)
    → check_release c rel f (parse_release_id rel) ≡ admit cluster rel_id id g
    → (c ≡ cluster)
      × (rel ≡ rel_id)
      × (f ≡ g)
      × (parse_release_id rel ≡ some id)
      × (id.cluster ≡ c)
      × (f.observed_generation ≡ int_text f.generation)
release_checked cluster rel rel_id c f g id h = elim (Option-cases (parse_release_id rel)) [
  | inl e ↦ absurd (ground (arith, e))
  | inr (i, e) ↦
      ground (arith, e, eq_iff i.cluster c, eq_iff f.observed_generation (int_text f.generation))
]

body_checked :
    (decode : String → Option Fact) (c : String) (b : Option String) (cluster rel_id : String)
    (id : ReleaseId) (f : Fact)
    → check_body decode c b ≡ admit cluster rel_id id f
    → (body : String) × (g : Fact) × (b ≡ some body)
      × (decode body ≡ some g)
      × (text_at "hangar.io/release-id" g.annotations ≢ "")
      × (check_release c
            (text_at "hangar.io/release-id" g.annotations)
            g
            (parse_release_id (text_at "hangar.io/release-id" g.annotations))
          ≡ admit cluster rel_id id f)
body_checked decode c none cluster rel_id id f h = cc
body_checked decode c (some b) cluster rel_id id f h = elim (Option-cases (decode b)) [
  | inl e ↦ absurd (ground (arith, e))
  | inr (g, e) ↦ elim (Bool-cases (text_at "hangar.io/release-id" g.annotations == "")) [
    | inl blank ↦ absurd (ground (arith, e, blank))
    | inr given ↦ (
      b,
      g,
      refl,
      e,
      ground (arith, given, eq_iff (text_at "hangar.io/release-id" g.annotations) ""),
      ground (arith, e, given),
    )
  ]
]

admitted :
    (reg : Registry) (decode : String → Option Fact) (r : Request) (cluster rel_id : String)
    (id : ReleaseId) (f : Fact)
    → handle_facts reg decode r ≡ admit cluster rel_id id f
    → let c = trim_prefix "/facts/" r.path in
      (r.method ≡ "POST")
      × (c ≢ "")
      × (contains b'/' c ≡ false)
      × (authenticate reg c r.authorization ≡ authentic)
      × (check_body decode c r.body ≡ admit cluster rel_id id f)
unfolding handle_facts
admitted reg decode r cluster rel_id id f h =
    ground (arith, eq_iff r.method "POST", eq_iff (trim_prefix "/facts/" r.path) "")

admit_trusted :
    (reg : Registry) (decode : String → Option Fact) (r : Request) (cluster rel_id : String)
    (id : ReleaseId) (f : Fact)
    → IsTrusted reg decode r cluster rel_id id f
    → handle_facts reg decode r ≡ admit cluster rel_id id f
unfolding handle_facts
admit_trusted reg decode r cluster rel_id id f t =
    rw
      (
        trim-path r.path cluster t.path,
        t.known,
        t.one_segment,
        (eq_iff r.method "POST").1 t.post,
        t.received,
        t.means,
        t.annotated,
        t.parsed,
        (eq_iff id.cluster cluster).1 t.own_cluster,
        (eq_iff f.observed_generation (int_text f.generation)).1 t.observed,
      )
      (ground (arith, t.named, t.tracked, eq_iff cluster "", eq_iff rel_id ""))

-- A fact goes on to `apply` exactly if it comes from an authenticated POST whose path is
-- /facts/<cluster>, or a single segment that does not start with /facts/ and is the cluster; if the
-- body decodes to it; if its release-id annotation is well formed and names that same cluster; and
-- if its generation, in decimal, is the one that the controller observed.
pub handle_facts-IsTrusted :
    (reg : Registry) (decode : String → Option Fact) (r : Request) (cluster rel_id : String)
    (id : ReleaseId) (f : Fact)
    → (handle_facts reg decode r ≡ admit cluster rel_id id f
        → IsTrusted reg decode r cluster rel_id id f)
      × (IsTrusted reg decode r cluster rel_id id f
          → handle_facts reg decode r ≡ admit cluster rel_id id f)
handle_facts-IsTrusted reg decode r cluster rel_id id f =
    (trusted, admit_trusted reg decode r cluster rel_id id f)
  where
    trusted :
        handle_facts reg decode r ≡ admit cluster rel_id id f
        → IsTrusted reg decode r cluster rel_id id f
    trusted h =
        let c = trim_prefix "/facts/" r.path in
        let (post, nonempty, whole, known, b) = admitted reg decode r cluster rel_id id f h in
        let (body, g, received, means, tracked, d) =
          body_checked decode c r.body cluster rel_id id f b in
        let (same, rel, fact, parsed, own, seen) =
          release_checked cluster (text_at "hangar.io/release-id" g.annotations) rel_id c g f id
            d in
        record {
          post = post;
          path = rw (← same) (trimmed r.path);
          known = rw (← same) known;
          named = rw (← same) nonempty;
          one_segment = rw (← same) whole;
          body = body;
          received = received;
          means = rw (← fact) means;
          annotated = rw (← fact) rel;
          tracked = rw (← rel) tracked;
          parsed = rw (← rel) parsed;
          own_cluster = own ∙ same;
          observed = rw (← fact) seen;
        }

-- What is known of a record that `load` hands to the reducer: where it was read, and what of it fits
-- the fact.
pub record IsOwn (get : String → String → Option ConfigMap) (ns cluster : String) (id : ReleaseId)
    (rec : ReleaseRecord) (cm : ConfigMap) : Type 0 where
  pub read : get ns (concat (record_prefix ∷ id.chain ∷ [])) ≡ some cm
  pub app_namespace : has_prefix "app-" ns ≡ true
  pub in_namespace : rec.app_namespace ≡ ns
  pub same_cluster : rec.cluster ≡ cluster
  pub same_env : rec.env ≡ id.env
  pub stored_cluster : text_at "cluster" cm.entries ≡ cluster
  pub stored_env : text_at "env" cm.entries ≡ id.env

-- The loader gives the reducer only the ConfigMap that `get` answers for the name of the release's
-- chain, in the namespace that the fact names, which is an application's;
-- and only a record of that namespace, of the cluster that authenticated and of the environment in
-- the release id.
pub facts_load-IsOwn :
    (get : String → String → Option ConfigMap) (cluster : String) (id : ReleaseId) (f : Fact)
    (rec : ReleaseRecord) (cm : ConfigMap)
    → facts_load get cluster id f ≡ ready rec cm
    → IsOwn get (text_at "hangar.io/app-namespace" f.annotations) cluster id rec cm
unfolding facts_load load_record
facts_load-IsOwn get cluster id f rec cm h =
    let ns = text_at "hangar.io/app-namespace" f.annotations in
    elim (Option-cases (get ns (concat (record_prefix ∷ id.chain ∷ [])))) [
      | inl e ↦ absurd (ground (arith, e))
      | inr (m, e) ↦ ground (
        arith,
        e,
        eq_iff (text_at "cluster" m.entries) cluster,
        eq_iff (text_at "env" m.entries) id.env,
        eq_iff (text_at "appNamespace" m.entries) ns,
      )
    ]
