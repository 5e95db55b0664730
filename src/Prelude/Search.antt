-- ===== src/Prelude/Search.antt =====
-- Go's `sort.Search`, and a `sort.Search` insertion into a sorted list.
use Prim.Native.Nat.{ℕ, zero, suc, ◌+◌, ◌/◌, ◌≤◌, ◌<◌}
use mathlib.Core.Path.{◌≡◌, refl}
use mathlib.Core.Logic.{inl, inr}
use mathlib.Core.Bool.{Bool, true, false, not}
use mathlib.Core.List.{List, [], ◌∷◌, ◌++◌}
use mathlib.Core.Option.{Option, none, some}
use native.Mathlib.Omega.{arith}
use glidepath.Prelude.Tests.{ltb, if◌then◌else◌, Bool-cases}
use glidepath.Prelude.Lists.{length, take, drop, get_elem?, All}
use glidepath.Prelude.Order.{Order}
use glidepath.Prelude.Sort.{Sorted, All-above}

-- The loop between `i` and `j`; each round halves the gap, so `j - i` rounds are enough.
search_loop : ℕ → (ℕ → Bool) → ℕ → ℕ → ℕ
search_loop zero f i j = i
search_loop (suc fuel) f i j =
    let h : ℕ = (i + j) / 2 in
    let right = search_loop fuel f (h + 1) j in
    let left = search_loop fuel f i h in if ltb i j then (if f h then left else right) else i

-- `sort.Search(n, f)`.
unfoldable pub search : ℕ → (ℕ → Bool) → ℕ
unfolding search_loop
search n f = search_loop n f 0 n

module _ (f : ℕ → Bool) (n : ℕ) (mono : (a b : ℕ) → a ≤ b → b < n → f a ≡ true → f b ≡ true) where
  -- `r` splits the range at the first place where the test holds.
  pub record IsFirst (r : ℕ) : Type 0 where
    pub in_range : r ≤ n
    pub below : (k : ℕ) → k < r → f k ≡ false
    pub above : (k : ℕ) → r ≤ k → k < n → f k ≡ true

  search_loop-IsFirst :
      (fuel i j : ℕ)
      → j ≤ i + fuel
      → i ≤ j
      → j ≤ n
      → ((k : ℕ) → k < i → f k ≡ false)
      → ((k : ℕ) → j ≤ k → k < n → f k ≡ true)
      → IsFirst (search_loop fuel f i j)
  unfolding search_loop
  search_loop-IsFirst zero i j e o m lo hi = record {
    in_range = omega arith;
    below = lo;
    above = λ k p q. hi k (omega arith) q;
  }
  search_loop-IsFirst (suc fuel) i j e o m lo hi = elim (Bool-cases (ltb i j)) [
    | inr empty ↦
        rw empty
          (record { in_range = omega arith; below = lo; above = λ k p q. hi k (ground arith) q })
    | inl open' ↦
        let gap : i < j = ground arith in
        elim (Bool-cases (f ((i + j) / 2))) [
          | inl yes' ↦
              rw (open', yes')
                (search_loop-IsFirst fuel i ((i + j) / 2) (omega arith) (omega arith) (omega arith)
                  lo (λ k p q. mono ((i + j) / 2) k p q yes'))
          | inr no' ↦
              rw (open', no')
                (search_loop-IsFirst fuel ((i + j) / 2 + 1) j (omega arith) (omega arith) m
                  (λ k p. elim (Bool-cases (f k)) [
                    | inr e' ↦ e'
                    | inl e' ↦
                        absurd
                          (ground (arith, mono k ((i + j) / 2) (omega arith) (omega arith) e', no'))
                  ])
                  hi)
        ]
  ]

  -- For a test that stays true once it is, the search finds the first place where it is.
  pub search-IsFirst : IsFirst (search n f)
  unfolding search
  search-IsFirst =
      search_loop-IsFirst n 0 n (omega arith) (omega arith) (omega arith)
        (λ k p. absurd (omega arith)) (λ k p q. absurd (omega arith))

module _ {ℓ κ} {A : Type ℓ} {K : Type κ} (o : Order K) (key : A → K) where
  -- Whether the entry at `i` has a larger key than `x`.
  abbrev pub is_larger : A → Option A → Bool
  is_larger x none = false
  is_larger x (some y) = not (o.le (key y) (key x))

  -- Go's insertion: `x` goes to the index that `sort.Search` finds.
  unfoldable pub insert_sorted : A → List A → List A
  insert_sorted x xs =
      let i = search (length xs) (λ k. is_larger x (get_elem? xs k)) in take i xs ++ x ∷ drop i xs

  -- The same by a walk: behind every entry whose key is not larger.
  unfoldable pub insert_after : A → List A → List A
  insert_after x [] = x ∷ []
  insert_after x (y ∷ ys) =
      let rest = insert_after x ys in if o.le (key y) (key x) then y ∷ rest else x ∷ y ∷ ys

  later_larger :
      (x y : A) (ys : List A) (k : ℕ)
      → All (λ z. o.le (key y) (key z) ≡ true) ys
      → o.le (key y) (key x) ≡ false
      → k < length ys
      → is_larger x (get_elem? ys k) ≡ true
  later_larger x y [] k h e l = elim l [ ]
  later_larger x y (z ∷ zs) zero h e l = elim (Bool-cases (o.le (key z) (key x))) [
    | inl up ↦ absurd (ground (arith, o.trans (key y) (key z) (key x) h.0 up, e))
    | inr n ↦ rw n refl
  ]
  later_larger x y (z ∷ zs) (suc k) h e l = later_larger x y zs k h.1 e (omega arith)

  is_larger_mono :
      (x : A) (xs : List A) (a b : ℕ)
      → Sorted o key xs
      → a ≤ b
      → b < length xs
      → is_larger x (get_elem? xs a) ≡ true
      → is_larger x (get_elem? xs b) ≡ true
  is_larger_mono x [] a b s le lt h = elim lt [ ]
  is_larger_mono x (y ∷ ys) zero zero s le lt h = h
  is_larger_mono x (y ∷ ys) zero (suc b) s le lt h =
      later_larger x y ys b s.0 (ground arith) (omega arith)
  is_larger_mono x (y ∷ ys) (suc a) zero s le lt h = absurd (omega arith)
  is_larger_mono x (y ∷ ys) (suc a) (suc b) s le lt h =
      is_larger_mono x ys a b s.1 (omega arith) (omega arith) h

  split-insert_after :
      (x : A) (i : ℕ) (xs : List A)
      → i ≤ length xs
      → ((k : ℕ) → k < i → is_larger x (get_elem? xs k) ≡ false)
      → ((k : ℕ) → i ≤ k → k < length xs → is_larger x (get_elem? xs k) ≡ true)
      → (take i xs ++ x ∷ drop i xs) ≡ insert_after x xs
  unfolding insert_after
  split-insert_after x zero [] le lo hi = refl
  split-insert_after x zero (y ∷ ys) le lo hi = ground (arith, hi 0 (omega arith) (omega arith))
  split-insert_after x (suc i) [] le lo hi = absurd (omega arith)
  split-insert_after x (suc i) (y ∷ ys) le lo hi = ground (
    arith,
    lo 0 (omega arith),
    split-insert_after x i ys (omega arith) (λ k p. lo (suc k) (omega arith))
        (λ k p q. hi (suc k) (omega arith) (omega arith)),
  )

  -- In a sorted list the binary search inserts where the walk does.
  pub insert_sorted-insert_after :
      (x : A) (xs : List A) → Sorted o key xs → insert_sorted x xs ≡ insert_after x xs
  unfolding insert_sorted
  insert_sorted-insert_after x xs s =
      let f =
        search-IsFirst (λ k. is_larger x (get_elem? xs k)) (length xs)
          (λ a b p q h. is_larger_mono x xs a b s p q h) in
      split-insert_after x _ xs f.in_range f.below f.above

  All-insert_after {μ} :
      (P : A → Type μ) (x : A) (xs : List A) → P x → All P xs → All P (insert_after x xs)
  unfolding insert_after
  All-insert_after P x [] px h = (px, tt)
  All-insert_after P x (y ∷ ys) px h = elim (Bool-cases (o.le (key y) (key x))) [
    | inl e ↦ rw e (h.0, All-insert_after P x ys px h.1)
    | inr e ↦ rw e (px, (h.0, h.1))
  ]

  Sorted-insert_after : (x : A) (xs : List A) → Sorted o key xs → Sorted o key (insert_after x xs)
  unfolding insert_after
  Sorted-insert_after x [] s = (tt, tt)
  Sorted-insert_after x (y ∷ ys) s = elim (Bool-cases (o.le (key y) (key x))) [
    | inl e ↦ rw e (
      All-insert_after (λ z. o.le (key y) (key z) ≡ true) x ys e s.0,
      Sorted-insert_after x ys s.1,
    )
    | inr e ↦
        let up : o.le (key x) (key y) ≡ true = elim (o.total (key x) (key y)) [
          | inl p ↦ p
          | inr p ↦ absurd (ground (arith, p, e))
        ] in
        rw e ((up, All-above o key x y ys up s.0), s)
  ]

  pub Sorted-insert_sorted :
      (x : A) (xs : List A) → Sorted o key xs → Sorted o key (insert_sorted x xs)
  Sorted-insert_sorted x xs s = rw (insert_sorted-insert_after x xs s) (Sorted-insert_after x xs s)
