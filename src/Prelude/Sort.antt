-- ===== src/Prelude/Sort.antt =====
-- Go's stable sorts by a key, as insertion from the right, and what they keep.
use glidepath.Prelude.Tests.{if◌then◌else◌, Bool-cases}
use glidepath.Prelude.Lists.{All, length}
use glidepath.Prelude.Order.{Order}
use Prim.Native.Nat.{suc}
use mathlib.Core.Path.{◌≡◌, refl, ap, ◌∙◌}
use mathlib.Core.Logic.{inl, inr}
use mathlib.Core.Bool.{Bool, true, false, ◌||◌}
use mathlib.Core.List.{List, [], ◌∷◌}
use native.Mathlib.Omega.{arith}

-- Whether some entry passes.
abbrev pub any {ℓ} : {A : Type ℓ} → (A → Bool) → List A → Bool
any p [] = false
any p (x ∷ xs) = p x || any p xs

module _ {ℓ κ} {A : Type ℓ} {K : Type κ} (o : Order K) (key : A → K) where
  -- `x` goes before the first entry whose key is not smaller: entries with its key keep their order.
  unfoldable pub insert_by : A → List A → List A
  insert_by x [] = x ∷ []
  insert_by x (y ∷ ys) =
      let rest = insert_by x ys in if o.le (key x) (key y) then x ∷ y ∷ ys else y ∷ rest

  unfoldable pub sort_by : List A → List A
  unfolding insert_by
  sort_by [] = []
  sort_by (x ∷ xs) = insert_by x (sort_by xs)

  -- Every entry's key is at most that of each later one.
  abbrev pub Sorted : List A → Type (ℓ ⊔ κ)
  Sorted [] = Unit
  Sorted (x ∷ xs) = All (λ y. o.le (key x) (key y) ≡ true) xs × Sorted xs

  pub All-insert_by {μ} :
      (P : A → Type μ) (x : A) (xs : List A) → P x → All P xs → All P (insert_by x xs)
  unfolding insert_by
  All-insert_by P x [] px h = (px, tt)
  All-insert_by P x (y ∷ ys) px h = elim (Bool-cases (o.le (key x) (key y))) [
    | inl e ↦ rw e (px, (h.0, h.1))
    | inr e ↦ rw e (h.0, All-insert_by P x ys px h.1)
  ]

  pub All-sort_by {μ} : (P : A → Type μ) (xs : List A) → All P xs → All P (sort_by xs)
  unfolding sort_by
  All-sort_by P [] h = h
  All-sort_by P (x ∷ xs) h = All-insert_by P x (sort_by xs) h.0 (All-sort_by P xs h.1)

  pub All-above :
      (x y : A) (ys : List A)
      → o.le (key x) (key y) ≡ true
      → All (λ z. o.le (key y) (key z) ≡ true) ys
      → All (λ z. o.le (key x) (key z) ≡ true) ys
  All-above x y [] e h = tt
  All-above x y (z ∷ zs) e h = (o.trans (key x) (key y) (key z) e h.0, All-above x y zs e h.1)

  Sorted-insert_by : (x : A) (xs : List A) → Sorted xs → Sorted (insert_by x xs)
  unfolding insert_by
  Sorted-insert_by x [] h = (tt, tt)
  Sorted-insert_by x (y ∷ ys) h = elim (Bool-cases (o.le (key x) (key y))) [
    | inl e ↦ rw e ((e, All-above x y ys e h.0), h)
    | inr e ↦ rw e (
      All-insert_by (λ z. o.le (key y) (key z) ≡ true) x ys
          (elim (o.total (key x) (key y)) [
            | inl up ↦ absurd (ground (arith, up, e))
            | inr down ↦ down
          ])
          h.0,
      Sorted-insert_by x ys h.1,
    )
  ]

  pub Sorted-sort_by : (xs : List A) → Sorted (sort_by xs)
  unfolding sort_by
  Sorted-sort_by [] = tt
  Sorted-sort_by (x ∷ xs) = Sorted-insert_by x (sort_by xs) (Sorted-sort_by xs)

  any-insert_by : (p : A → Bool) (x : A) (xs : List A) → any p (insert_by x xs) ≡ any p (x ∷ xs)
  unfolding insert_by
  any-insert_by p x [] = refl
  any-insert_by p x (y ∷ ys) = ground (arith, any-insert_by p x ys)

  pub any-sort_by : (p : A → Bool) (xs : List A) → any p (sort_by xs) ≡ any p xs
  unfolding sort_by
  any-sort_by p [] = refl
  any-sort_by p (x ∷ xs) = ground (arith, any-insert_by p x (sort_by xs), any-sort_by p xs)

  length-insert_by : (x : A) (xs : List A) → length (insert_by x xs) ≡ suc (length xs)
  unfolding insert_by
  length-insert_by x [] = refl
  length-insert_by x (y ∷ ys) = ground (arith, length-insert_by x ys)

  pub length-sort_by : (xs : List A) → length (sort_by xs) ≡ length xs
  unfolding sort_by
  length-sort_by [] = refl
  length-sort_by (x ∷ xs) = length-insert_by x (sort_by xs) ∙ ap suc (length-sort_by xs)
