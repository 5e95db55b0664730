-- ===== src/Prelude/Dict/Keys.antt =====
-- Maps in which no key is listed twice, as every map of Go is.
use Prim.Native.String.{String}
use mathlib.Core.Path.{◌≡◌, refl}
use mathlib.Core.Logic.{inl, inr}
use mathlib.Core.List.{[], ◌∷◌}
use mathlib.Core.Option.{none}
use text.Mathlib.Text.{◌==◌}
use glidepath.Prelude.Tests.{Bool-cases}
use glidepath.Prelude.Dict.{Dict, lookup, insert, remove, lookup-insert, lookup-remove}

module _ {ℓ} {V : Type ℓ} where
  abbrev pub IsMap : Dict V → Type ℓ
  IsMap [] = Unit
  IsMap (e ∷ rest) = (lookup e.0 rest ≡ none) × IsMap rest

  pub IsMap-insert : (k : String) (v : V) (d : Dict V) → IsMap d → IsMap (insert k v d)
  unfolding insert
  IsMap-insert k v [] h = (unfold lookup in refl, tt)
  IsMap-insert k v (e ∷ rest) h = elim (Bool-cases (k == e.0)) [
    | inl here ↦ rw here h
    | inr there ↦
        rw there (rw (lookup-insert k e.0 v rest) (rw there h.0), IsMap-insert k v rest h.1)
  ]

  pub IsMap-remove : (k : String) (d : Dict V) → IsMap d → IsMap (remove k d)
  unfolding remove
  IsMap-remove k [] h = tt
  IsMap-remove k (e ∷ rest) h = elim (Bool-cases (k == e.0)) [
    | inl here ↦ rw here (IsMap-remove k rest h.1)
    | inr there ↦ rw there (rw (lookup-remove k e.0 rest) (rw there h.0), IsMap-remove k rest h.1)
  ]
