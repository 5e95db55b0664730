-- ===== src/Relay/Record/Ids.antt =====
-- `parseReleaseID` of glidepath-relay/facts.go reads exactly the ids that the pipeline writes.
use Prim.Native.String.{◌++◌ as text_append}
use glidepath.Prelude.{
  String, ◌≡◌, ◌≢◌, refl, false, some, arith, ◌==◌, eq_iff, Bool-cases, inl, inr,
}
use glidepath.Prelude.Text.Cuts.{cut-append, Splits, cut-found}
use glidepath.Prelude.Text.{Cut, found, missing, cut, contains}
use glidepath.Relay.Record.{ReleaseId, parse_release_id, split_env, split_chain}

-- The id as the pipeline writes it.
abbrev pub id_text : ReleaseId → String
id_text r = text_append r.chain (String.◌∷◌ ":" (text_append r.cluster (String.◌∷◌ "/" r.env)))

-- Whatever the release, an id in the pipeline's format is read back part by part, if no part is
-- empty, the chain has no colon, and neither the cluster nor the environment has a slash.
pub parse_release_id-text :
    (r : ReleaseId)
    → r.chain ≢ ""
    → contains b':' r.chain ≡ false
    → r.cluster ≢ ""
    → contains b'/' r.cluster ≡ false
    → r.env ≢ ""
    → contains b'/' r.env ≡ false
    → parse_release_id (id_text r) ≡ some r
unfolding parse_release_id
parse_release_id-text r c cc' k kk e ee =
    let outer = cut-append ":" r.chain (text_append r.cluster (String.◌∷◌ "/" r.env)) cc' in
    let inner = cut-append "/" r.cluster r.env kk in
    rw outer (ground (arith, inner, eq_iff r.chain "", eq_iff r.cluster "", eq_iff r.env ""))

-- What an accepted id looks like.
pub record IsIdOf (id : String) (r : ReleaseId) : Type 0 where
  pub text : id ≡ id_text r
  pub chain : (r.chain ≢ "") × (contains b':' r.chain ≡ false)
  pub cluster : (r.cluster ≢ "") × (contains b'/' r.cluster ≡ false)
  pub env : (r.env ≢ "") × (contains b'/' r.env ≡ false)

IsIdOf-env :
    (id c rest : String) (k : Cut) (r : ReleaseId)
    → Splits ":" id c rest
    → c == "" ≡ false
    → cut b'/' rest ≡ k
    → split_env c k ≡ some r
    → IsIdOf id r
IsIdOf-env id c rest missing r s n e h = cc
IsIdOf-env id c rest (found cl env) r s n e h =
    let (whole, clean) = cut-found "/" rest cl env e in
    let p : c ≡ r.chain = ground arith in
    let q : cl ≡ r.cluster = ground arith in
    let w : env ≡ r.env = ground arith in
    record {
      text = cc (s.0, whole, p, q, w);
      chain = (ground (arith, eq_iff c ""), rw (← p) s.1);
      cluster = (ground (arith, eq_iff cl ""), rw (← q) clean);
      env = (ground (arith, eq_iff env ""), ground arith);
    }

-- An id that is accepted is the pipeline's text of the release that is read: no two texts are read
-- as the same release, no part is empty, and a slash or a colon never slips into a part before it.
pub parse_release_id-some :
    (id : String) (r : ReleaseId) → parse_release_id id ≡ some r → IsIdOf id r
unfolding parse_release_id
parse_release_id-some id r h = go (cut b':' id) refl (ground arith)
  where
    go : (k : Cut) → cut b':' id ≡ k → split_chain k ≡ some r → IsIdOf id r
    go missing e h' = cc
    go (found c rest) e h' = elim (Bool-cases (c == "")) [
      | inl n ↦ cc (n)
      | inr n ↦
          IsIdOf-env id c rest (cut b'/' rest) r (cut-found ":" id c rest e) n refl (ground arith)
    ]
