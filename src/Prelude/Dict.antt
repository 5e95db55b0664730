-- ===== src/Prelude/Dict.antt =====
-- Go's maps with text keys, as association lists: a write replaces in place or adds at the end.
pub mod Keys
pub mod Sorted
use Prim.Native.String.{String}
use mathlib.Core.Path.{◌≡◌, ap}
use mathlib.Core.Logic.{inl, inr}
use mathlib.Core.Bool.{true}
use mathlib.Core.List.{List, [], ◌∷◌}
use mathlib.Core.Option.{Option, none, some}
use native.Mathlib.Omega.{arith}
use text.Mathlib.Text.{◌==◌}
use text.Mathlib.TextEquality.{eq_iff}
use glidepath.Prelude.Tests.{Bool-cases, if◌then◌else◌}

abbrev pub Dict {ℓ} : Type ℓ → Type ℓ
Dict V = List (String × V)

same_key : (a b c : String) → a == b ≡ true → (c == a) ≡ (c == b)
same_key a b c h = let e : a ≡ b = (eq_iff a b).0 h in ap (λ s. c == s) e

module _ {ℓ} {V : Type ℓ} where
  unfoldable pub lookup : String → Dict V → Option V
  lookup name [] = none
  lookup name (e ∷ rest) = let later = lookup name rest in if name == e.0 then some e.1 else later

  unfoldable pub insert : String → V → Dict V → Dict V
  insert name new [] = (name, new) ∷ []
  insert name new (e ∷ rest) =
      let later = insert name new rest in if name == e.0 then (e.0, new) ∷ rest else e ∷ later

  -- `delete`.
  unfoldable pub remove : String → Dict V → Dict V
  remove name [] = []
  remove name (e ∷ rest) = let later = remove name rest in if name == e.0 then later else e ∷ later

  pub lookup-insert :
      (written asked : String) (new : V) (dict : Dict V)
      → lookup asked (insert written new dict)
        ≡ (if written == asked then some new else lookup asked dict)
  unfolding lookup insert
  lookup-insert written asked new [] = ground (arith, eq_iff written asked, eq_iff asked written)
  lookup-insert written asked new (e ∷ rest) = elim (Bool-cases (written == e.0)) [
    | inl here ↦ rw here (
        ground (
          arith,
          same_key written e.0 asked here,
          eq_iff written asked,
          eq_iff asked written,
          eq_iff asked e.0,
        ))
    | inr there ↦ rw there (
        ground (
          arith,
          lookup-insert written asked new rest,
          eq_iff written asked,
          eq_iff asked e.0,
          eq_iff written e.0,
        ))
  ]

  pub lookup-remove :
      (dropped asked : String) (dict : Dict V)
      → lookup asked (remove dropped dict) ≡ (if dropped == asked then none else lookup asked dict)
  unfolding lookup remove
  lookup-remove dropped asked [] = ground arith
  lookup-remove dropped asked (e ∷ rest) = elim (Bool-cases (dropped == e.0)) [
    | inl here ↦ rw here (
        ground (
          arith,
          lookup-remove dropped asked rest,
          same_key dropped e.0 asked here,
          eq_iff dropped asked,
          eq_iff asked dropped,
        ))
    | inr there ↦ rw there (
        ground (
          arith,
          lookup-remove dropped asked rest,
          eq_iff dropped asked,
          eq_iff asked e.0,
          eq_iff dropped e.0,
        ))
  ]

-- `m[k]` on a `map[string]string`: the empty text for a missing key.
unfoldable pub text_at : String → Dict String → String
text_at k m = elim (lookup k m) [ none ↦ "" | some v ↦ v ]

pub text_at-insert :
    (k j v : String) (m : Dict String)
    → text_at j (insert k v m) ≡ (if k == j then v else text_at j m)
unfolding text_at
text_at-insert k j v m = ground (arith, lookup-insert k j v m)

pub text_at-remove :
    (k j : String) (m : Dict String) → text_at j (remove k m) ≡ (if k == j then "" else text_at j m)
unfolding text_at
text_at-remove k j m = ground (arith, lookup-remove k j m)
