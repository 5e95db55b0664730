-- ===== src/Prelude/Dict/Sorted.antt =====
-- What a map reads after a loop has sorted it by its keys, or kept some of its entries.
use Prim.Native.String.{String}
use mathlib.Core.Path.{◌≡◌, refl, ap, ◌∙◌}
use mathlib.Core.Logic.{inl, inr}
use mathlib.Core.Bool.{Bool, false}
use mathlib.Core.List.{[], ◌∷◌}
use mathlib.Core.Option.{Option, none, some}
use native.Mathlib.Omega.{arith}
use text.Mathlib.Text.{◌==◌}
use text.Mathlib.TextEquality.{eq_iff}
use glidepath.Prelude.Tests.{Bool-cases, if◌then◌else◌}
use glidepath.Prelude.Lists.{keep}
use glidepath.Prelude.Order.{text_order, text_le}
use glidepath.Prelude.Sort.{insert_by, sort_by}
use glidepath.Prelude.Dict.{Dict, lookup}
use glidepath.Prelude.Dict.Keys.{IsMap}

pub eq_sym : (a b : String) → (a == b) ≡ false → (b == a) ≡ false
eq_sym a b h = ground (arith, h, eq_iff a b, eq_iff b a)

module _ {ℓ} {V : Type ℓ} where
  -- The entry under a key, if it passes.
  abbrev pub passed : (String × V → Bool) → String → Option V → Option V
  passed p k none = none
  passed p k (some v) = if p (k, v) then some v else none

  -- Two entries with different keys can change places.
  lookup-swap :
      (k : String) (e f : String × V) (d : Dict V)
      → (f.0 == e.0) ≡ false
      → lookup k (e ∷ f ∷ d) ≡ lookup k (f ∷ e ∷ d)
  unfolding lookup
  lookup-swap k e f d h = ground (arith, h, eq_iff k e.0, eq_iff k f.0, eq_iff f.0 e.0)

  -- A key of the rest is not the key of an entry that is missing from it.
  other_key : (e f : String × V) (d : Dict V) → lookup e.0 (f ∷ d) ≡ none → (e.0 == f.0) ≡ false
  unfolding lookup
  other_key e f d h = ground (arith, h)

  lookup-other :
      (k : String) (e : String × V) (d : Dict V)
      → (k == e.0) ≡ false
      → lookup k (e ∷ d) ≡ lookup k d
  unfolding lookup
  lookup-other k e d h = rw h refl

  missing_later :
      (k : String) (f : String × V) (d : Dict V) → lookup k (f ∷ d) ≡ none → lookup k d ≡ none
  unfolding lookup
  missing_later k f d h = ground (arith, h)

  abbrev sorted_in : String × V → Dict V → Dict V
  sorted_in = insert_by text_order (λ (x : String × V). x.0)

  -- A sort by the keys.
  abbrev pub by_keys : Dict V → Dict V
  by_keys = sort_by text_order (λ (x : String × V). x.0)

  lookup-cons :
      (k : String) (e : String × V) (c d : Dict V)
      → lookup k c ≡ lookup k d
      → lookup k (e ∷ c) ≡ lookup k (e ∷ d)
  unfolding lookup
  lookup-cons k e c d h = rw h refl

  lookup-sorted_in :
      (k : String) (e : String × V) (d : Dict V)
      → lookup e.0 d ≡ none
      → lookup k (sorted_in e d) ≡ lookup k (e ∷ d)
  unfolding insert_by
  lookup-sorted_in k e [] h = refl
  lookup-sorted_in k e (f ∷ d) h = elim (Bool-cases (text_le e.0 f.0)) [
    | inl le ↦ rw (insert_by, le) refl
    | inr gt ↦
        rw (insert_by, gt)
          (lookup-cons k f (sorted_in e d) (e ∷ d)
              (lookup-sorted_in k e d (missing_later e.0 f d h))
            ∙ lookup-swap k f e d (other_key e f d h))
  ]

  pub lookup-by_keys : (k : String) (d : Dict V) → IsMap d → lookup k (by_keys d) ≡ lookup k d
  unfolding sort_by
  lookup-by_keys k [] h = refl
  lookup-by_keys k (e ∷ d) h =
      lookup-sorted_in k e (by_keys d) (lookup-by_keys e.0 d h.1 ∙ h.0)
      ∙ lookup-cons k e (by_keys d) d (lookup-by_keys k d h.1)

  IsMap-sorted_in :
      (e : String × V) (d : Dict V) → lookup e.0 d ≡ none → IsMap d → IsMap (sorted_in e d)
  unfolding insert_by
  IsMap-sorted_in e [] h m = (h, tt)
  IsMap-sorted_in e (f ∷ d) h m = elim (Bool-cases (text_le e.0 f.0)) [
    | inl le ↦ rw (insert_by, le) (h, m)
    | inr gt ↦
        let later = missing_later e.0 f d h in
        rw (insert_by, gt)
          (
            lookup-sorted_in f.0 e d later
                ∙ lookup-other f.0 e d (eq_sym e.0 f.0 (other_key e f d h))
                ∙ m.0,
            IsMap-sorted_in e d later m.1,
          )
  ]

  pub IsMap-by_keys : (d : Dict V) → IsMap d → IsMap (by_keys d)
  unfolding sort_by
  IsMap-by_keys [] h = h
  IsMap-by_keys (e ∷ d) h =
      IsMap-sorted_in e (by_keys d) (lookup-by_keys e.0 d h.1 ∙ h.0) (IsMap-by_keys d h.1)

  pub lookup-keep :
      (p : String × V → Bool) (k : String) (d : Dict V)
      → IsMap d
      → lookup k (keep p d) ≡ passed p k (lookup k d)
  unfolding lookup
  lookup-keep p k [] m = refl
  lookup-keep p k (e ∷ d) m = elim (Bool-cases (k == e.0)) [
    | inr other ↦ elim (Bool-cases (p e)) [
      | inl on ↦ rw (on, other) (lookup-keep p k d m.1)
      | inr off ↦ rw (off, other) (lookup-keep p k d m.1)
    ]
    | inl here ↦
        let same : k ≡ e.0 = (eq_iff k e.0).0 here in
        let gone : lookup k (keep p d) ≡ none =
          rw same (lookup-keep p e.0 d m.1 ∙ ap (passed p e.0) m.0) in
        elim (Bool-cases (p e)) [
          | inl on ↦ rw (on, here) (rw (same, on) refl)
          | inr off ↦ rw (off, here) (rw gone (rw (same, off) refl))
        ]
  ]

  pub IsMap-keep : (p : String × V → Bool) (d : Dict V) → IsMap d → IsMap (keep p d)
  IsMap-keep p [] m = m
  IsMap-keep p (e ∷ d) m = elim (Bool-cases (p e)) [
    | inl on ↦ rw on (lookup-keep p e.0 d m.1 ∙ ap (passed p e.0) m.0, IsMap-keep p d m.1)
    | inr off ↦ rw off (IsMap-keep p d m.1)
  ]
