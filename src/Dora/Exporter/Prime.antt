-- ===== src/Dora/Exporter/Prime.antt =====
-- What a started process of dora-exporter/main.go counts: what is stored.
use native.Mathlib.Nat.{zero-add, add-zero}
use mathlib.Core.List.{append-nil}
use glidepath.Prelude.{
  ◌≡◌, refl, sym, ap, ap₂, ◌∙◌, String, false, ◌&&◌, [], ◌∷◌, Option, some, none, ◌==◌, eq_iff,
  arith, Bool-cases, Option-cases, inl, inr,
}
use glidepath.Prelude.Text.{contains}
use glidepath.Prelude.Dict.{Dict, lookup}
use glidepath.Prelude.Dict.Keys.{IsMap}
use glidepath.Dora.Exporter.{
  Metrics, Formats, app_state_key, split_state_key, no_metrics, Collectors, at_labels, decoded,
  stored, added, prime_loop, prime,
}
use glidepath.Dora.Exporter.Keys.{split_state_key-app_state_key, app_state_key-split}

module _ {F : Type 0} where
  added-no_metrics : (m : Metrics F) → added no_metrics m ≡ m
  added-no_metrics m = rw (zero-add, zero-add, zero-add) refl

  no_metrics-added : (m : Metrics F) → added m no_metrics ≡ m
  no_metrics-added m = rw (append-nil, append-nil, add-zero, add-zero, add-zero) refl

  pub at_labels-here :
      (ns app : String) (f : Metrics F → Metrics F) (live : Collectors F)
      → at_labels ns app f live ns app ≡ f (live ns app)
  unfolding at_labels
  at_labels-here ns app f live = ground (arith, eq_iff ns ns, eq_iff app app)

  pub at_labels-other :
      (a b ns app : String) (f : Metrics F → Metrics F) (live : Collectors F)
      → ((ns ≡ a) → (app ≡ b) → ⊥)
      → at_labels a b f live ns app ≡ live ns app
  unfolding at_labels
  at_labels-other a b ns app f live h = elim (Bool-cases ((ns == a) && (app == b))) [
    | inr e ↦ rw e refl
    | inl e ↦
        absurd (h ((eq_iff ns a).0 (ground (arith, e))) ((eq_iff app b).0 (ground (arith, e))))
  ]

module _ {F : Type 0} (fm : Formats F) where
  decoded-corrupt : (raw : String) → fm.decode raw ≡ none → decoded fm (some raw) ≡ no_metrics
  unfolding decoded
  decoded-corrupt raw d = rw (decoded, d) refl

  pub decoded-some :
      (raw : String) (n : Metrics F) → fm.decode raw ≡ some n → decoded fm (some raw) ≡ n
  unfolding decoded
  decoded-some raw n d = rw (decoded, d) refl

  -- The collectors after the loop: what they counted, and what the entry of their key counts.
  prime_loop-lookup :
      (es : Dict String) (live : Collectors F) (ns app : String)
      → IsMap es
      → contains b'.' ns ≡ false
      → prime_loop fm es live ns app
        ≡ added (live ns app) (decoded fm (lookup (app_state_key ns app) es))
  unfolding prime_loop lookup decoded
  prime_loop-lookup [] live ns app u h = sym (no_metrics-added (live ns app))
  prime_loop-lookup (e ∷ es) live ns app u h =
      let key = app_state_key ns app in
      elim (Bool-cases (key == e.0)) [
        | inl k ↦
            let same : key ≡ e.0 = (eq_iff key e.0).0 k in
            let parts : split_state_key e.0 ≡ some (ns, app) =
              ap split_state_key (sym same) ∙ split_state_key-app_state_key ns app h in
            let gone : lookup key es ≡ none = ap (λ x. lookup x es) same ∙ u.0 in
            elim (Option-cases (fm.decode e.1)) [
              | inl d ↦
                  rw (parts, d, k)
                    (prime_loop-lookup es live ns app u.1 h
                      ∙ ap (λ o. added (live ns app) (decoded fm o)) gone
                      ∙ ap (added (live ns app)) (sym (decoded-corrupt e.1 d)))
              | inr (n, d) ↦
                  rw (parts, d, k)
                    (prime_loop-lookup es (at_labels ns app (λ m. added m n) live) ns app u.1 h
                      ∙ ap
                          (λ o.
                            added (at_labels ns app (λ m. added m n) live ns app) (decoded fm o))
                          gone
                      ∙ no_metrics-added (at_labels ns app (λ m. added m n) live ns app)
                      ∙ at_labels-here ns app (λ m. added m n) live
                      ∙ ap (added (live ns app)) (sym (decoded-some e.1 n d)))
            ]
        | inr k ↦ elim (Option-cases (split_state_key e.0)) [
          | inl p ↦ rw (p, k) (prime_loop-lookup es live ns app u.1 h)
          | inr ((a, b), p) ↦ elim (Option-cases (fm.decode e.1)) [
            | inl d ↦ rw (p, d, k) (prime_loop-lookup es live ns app u.1 h)
            | inr (n, d) ↦
                let other =
                  at_labels-other a b ns app (λ m. added m n) live
                    (λ x y. ground (
                      arith,
                      k,
                      (eq_iff key e.0).1
                          (ap₂ app_state_key x y ∙ sym (app_state_key-split e.0 a b p).0),
                    )) in
                rw (p, d, k)
                  (prime_loop-lookup es (at_labels a b (λ m. added m n) live) ns app u.1 h
                    ∙ ap (λ m. added m (decoded fm (lookup key es))) other)
          ]
        ]
      ]

  pub prime-stored :
      (cm : Option (Dict String)) (d : Dict String) (ns app : String)
      → cm ≡ some d
      → IsMap d
      → contains b'.' ns ≡ false
      → prime fm cm ns app ≡ stored fm cm (app_state_key ns app)
  unfolding prime
  prime-stored cm d ns app e u h = rw e (
      prime_loop-lookup d (λ a b. no_metrics) ns app u h
      ∙ added-no_metrics (decoded fm (lookup (app_state_key ns app) d)))
