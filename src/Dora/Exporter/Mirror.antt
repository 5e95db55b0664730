-- ===== src/Dora/Exporter/Mirror.antt =====
-- A recorded release changes the collectors of dora-exporter/main.go and its ConfigMap alike.
use glidepath.Prelude.{
  ℕ, ◌≡◌, refl, sym, ap, ap₂, ◌∙◌, String, true, false, some, ◌==◌, eq_iff, arith, Bool-cases, inl,
  inr,
}
use glidepath.Prelude.Text.{contains}
use glidepath.Prelude.Dict.{Dict, lookup, insert, lookup-insert}
use glidepath.Prelude.Dict.Keys.{IsMap, IsMap-insert}
use glidepath.Dora.Exporter.{
  Metrics, Formats, is_terminal_phase, app_state_key, Collectors, at_labels, Exporter, Answers,
  patch_key, record_outcome, counted, decoded, stored, persist_metrics_state, record_release,
}
use glidepath.Dora.Exporter.Keys.{app_state_key-injective}
use glidepath.Dora.Exporter.Prime.{decoded-some, at_labels-here, at_labels-other}

module _ {F : Type 0} (fm : Formats F) where
  -- The collectors count what is stored, for every namespace that is one of Kubernetes.
  pub record IsMirrored (s : Exporter F) : Type 0 where
    pub store : Dict String
    pub kept : s.metrics ≡ some store
    pub map : IsMap store
    pub same :
        (ns app : String)
        → contains b'.' ns ≡ false
        → s.live ns app ≡ stored fm s.metrics (app_state_key ns app)

  record_outcome-counted :
      (ns app phase : String) (finished : ℕ) (start failure : String) (live : Collectors F)
      (a b : String)
      → let (after, r) = record_outcome fm ns app phase finished start failure live in
        after a b ≡ at_labels ns app (counted fm phase r) live a b
  unfolding record_outcome counted at_labels
  record_outcome-counted ns app phase finished start failure live a b = ground arith

  -- A write of one application's record changes what is stored as it changes the collectors.
  insert-at_labels :
      (d : Dict String) (live : Collectors F) (ns app : String) (f : Metrics F → Metrics F)
      → contains b'.' ns ≡ false
      → ((x y : String)
          → contains b'.' x ≡ false
          → live x y ≡ decoded fm (lookup (app_state_key x y) d))
      → (a b : String) → contains b'.' a ≡ false
      → let key = app_state_key ns app in
        at_labels ns app f live a b
        ≡ decoded fm
            (lookup (app_state_key a b) (insert key (fm.encode (f (decoded fm (lookup key d)))) d))
  insert-at_labels d live ns app f n same a b h =
      let key = app_state_key ns app in
      let new = f (decoded fm (lookup key d)) in
      let read = lookup-insert key (app_state_key a b) (fm.encode new) d in
      elim (Bool-cases (key == app_state_key a b)) [
        | inl k ↦
            let one : key ≡ app_state_key a b = (eq_iff key (app_state_key a b)).0 k in
            let (x, y) = app_state_key-injective ns app a b n h one in
            rw (read, k, ← x, ← y)
              (at_labels-here ns app f live
                ∙ ap f (same ns app n)
                ∙ sym (decoded-some fm (fm.encode new) new (fm.decode-encode new)))
        | inr k ↦
            rw (read, k)
              (at_labels-other ns app a b f live (λ x y. ground (
                arith,
                k,
                (eq_iff key (app_state_key a b)).1 (ap₂ app_state_key (sym x) (sym y)),
              ))
                ∙ same a b h)
      ]

  pub IsMirrored-record :
      (api : Answers) (ns app phase : String) (finished : ℕ) (start failure : String)
      (s : Exporter F)
      → api.reads_metrics ≡ true
      → api.writes_metrics ≡ true
      → is_terminal_phase phase ≡ true
      → contains b'.' ns ≡ false
      → IsMirrored s
      → IsMirrored (record_release fm api ns app phase finished start failure s).0
  unfolding record_release persist_metrics_state patch_key
  IsMirrored-record api ns app phase finished start failure s r w t n m =
      let out = record_outcome fm ns app phase finished start failure s.live in
      let key = app_state_key ns app in
      let kept : s.metrics ≡ some m.store = m.kept in
      let new =
        insert key (fm.encode (counted fm phase out.1 (decoded fm (lookup key m.store)))) m.store in
      let written : persist_metrics_state fm api ns app phase out.1 s.metrics ≡ some new =
        rw (r, w, t, kept) refl in
      record {
        store = new;
        kept = written;
        map = IsMap-insert key _ m.store m.map;
        same = λ a b h. rw written (
            record_outcome-counted ns app phase finished start failure s.live a b
            ∙ insert-at_labels m.store s.live ns app (counted fm phase out.1) n
                (λ x y g. m.same x y g ∙ ap (λ o. stored fm o (app_state_key x y)) kept) a b h);
      }
