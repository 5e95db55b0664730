-- ===== src/Relay/Handler/Lookups.antt =====
-- What the lookups of `authenticate` in glidepath-relay/main.go found, when it succeeds.
use glidepath.Prelude.{String, ◌≡◌, ◌≢◌, some, arith, eq_iff, Option-cases, inl, inr}
use glidepath.Prelude.Text.{strip_prefix}
use glidepath.Prelude.Dict.{Dict, lookup}
use glidepath.Relay.Handler.{
  Registry, authentic, authenticate, check_registry, check_entry, check_secret,
}

pub token_matches :
    (reg : Registry) (name provided : String) (tokens : Dict String)
    → reg.secret name ≡ some tokens
    → check_secret reg provided (some name) ≡ authentic
    → (name ≢ "") × (lookup "token" tokens ≡ some provided)
token_matches reg name provided tokens s h = elim (Option-cases (lookup "token" tokens)) [
  | inl e ↦ absurd (ground (arith, s, e))
  | inr (expected, e) ↦
      let same : expected ≡ provided = ground (arith, s, e, eq_iff expected provided) in
      (ground (arith, eq_iff name ""), rw (← same) e)
]

pub secret_read :
    (reg : Registry) (name provided : String)
    → check_secret reg provided (some name) ≡ authentic
    → (tokens : Dict String) × (reg.secret name ≡ some tokens)
secret_read reg name provided h = elim (Option-cases (reg.secret name)) [
  | inl e ↦ absurd (ground (arith, e))
  | inr (tokens, e) ↦ (tokens, e)
]

pub entry_read :
    (reg : Registry) (raw provided : String)
    → check_entry reg provided (some raw) ≡ authentic
    → (name : String) × (reg.secret_name raw ≡ some name)
      × (check_secret reg provided (some name) ≡ authentic)
entry_read reg raw provided h = elim (Option-cases (reg.secret_name raw)) [
  | inl e ↦ absurd (ground (arith, e))
  | inr (name, e) ↦ (name, e, ground (arith, e))
]

pub registry_read :
    (reg : Registry) (cluster provided : String) (d : Dict String)
    → check_registry reg cluster provided (some d) ≡ authentic
    → (raw : String) × (lookup cluster d ≡ some raw)
      × (check_entry reg provided (some raw) ≡ authentic)
registry_read reg cluster provided d h = elim (Option-cases (lookup cluster d)) [
  | inl e ↦ absurd (ground (arith, e))
  | inr (raw, e) ↦ (raw, e, ground (arith, e))
]

pub registry_given :
    (reg : Registry) (cluster provided : String)
    → check_registry reg cluster provided reg.entries ≡ authentic
    → (d : Dict String) × (reg.entries ≡ some d)
      × (check_registry reg cluster provided (some d) ≡ authentic)
registry_given reg cluster provided h = elim (Option-cases reg.entries) [
  | inl e ↦ absurd (ground (arith, e))
  | inr (d, e) ↦ (d, e, ground (arith, e))
]

pub bearer_given :
    (reg : Registry) (cluster header : String)
    → authenticate reg cluster header ≡ authentic
    → (provided : String) × (strip_prefix "Bearer " header ≡ some provided)
      × (check_registry reg cluster provided reg.entries ≡ authentic)
unfolding authenticate
bearer_given reg cluster header h = elim (Option-cases (strip_prefix "Bearer " header)) [
  | inl e ↦ absurd (ground (arith, e))
  | inr (provided, e) ↦ (provided, e, ground (arith, e))
]
