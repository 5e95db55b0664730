-- ===== src/Server/Paging/Walk.antt =====
-- A client that follows the continue tokens of server/paging.go sees the whole list, once.
use glidepath.Prelude.{
  ℕ, zero, suc, ◌+◌, ◌-◌, ◌≤◌, ◌<◌, String, ◌≡◌, ◌≢◌, refl, sym, ap, ◌∙◌, true, false, List, [],
  ◌∷◌, ◌++◌, some, arith, leb, eqb, if◌then◌else◌, length, length-drop, take, take-append-drop,
  take-length, drop-add, get_elem?-drop, get_elem?-lt, drop, get_elem?, ◌==◌, eq_iff, All,
  Bool-cases, inl, inr,
}
use Prim.Native.Nat.{min}
use glidepath.Prelude.Order.{text_order, text_le, text_total, text_trans, text_antisym}
use glidepath.Prelude.Sort.{
  Sorted, sort_by, insert_by, Sorted-sort_by, length-sort_by, All-sort_by, All-insert_by,
}
use glidepath.Prelude.Search.{search-IsFirst}
use glidepath.Server.Paging.{at_least, skip, start_of, last_key, page_of, paginate}

module _ {ℓ} {A : Type ℓ} (key : A → String) where
  -- No two entries have the same key.
  abbrev pub Distinct : List A → Type ℓ
  Distinct [] = Unit
  Distinct (x ∷ xs) = All (λ y. key x ≢ key y) xs × Distinct xs

  -- Keys strictly grow along the list.
  abbrev Grows : List A → Type ℓ
  Grows [] = Unit
  Grows (x ∷ xs) = All (λ y. text_le (key y) (key x) ≡ false) xs × Grows xs

  at_least_mono :
      (after : String) (xs : List A) (a b : ℕ)
      → Sorted text_order key xs
      → a ≤ b
      → b < length xs
      → at_least key after (get_elem? xs a) ≡ true
      → at_least key after (get_elem? xs b) ≡ true
  at_least_mono after [] a b s le lt h = elim lt [ ]
  at_least_mono after (x ∷ xs) zero zero s le lt h = h
  at_least_mono after (x ∷ xs) zero (suc b) s le lt h = above xs b s.0 (ground arith)
    where
      above :
          (ys : List A) (k : ℕ)
          → All (λ y. text_le (key x) (key y) ≡ true) ys
          → k < length ys
          → at_least key after (get_elem? ys k) ≡ true
      above [] k u l = elim l [ ]
      above (y ∷ ys) zero u l = text_trans after (key x) (key y) h u.0
      above (y ∷ ys) (suc k) u l = above ys k u.1 (ground arith)
  at_least_mono after (x ∷ xs) (suc a) zero s le lt h = absurd (omega arith)
  at_least_mono after (x ∷ xs) (suc a) (suc b) s le lt h =
      at_least_mono after xs a b s.1 (omega arith) (omega arith) h

  skip-drop :
      (after : String) (s : ℕ) (xs : List A)
      → s ≤ length xs
      → ((k : ℕ) → k < s → at_least key after (get_elem? xs k) ≡ false)
      → s + skip key after (drop s xs) ≡ skip key after xs
  unfolding skip
  skip-drop after zero xs le lo = omega arith
  skip-drop after (suc s) [] le lo = absurd (omega arith)
  skip-drop after (suc s) (x ∷ xs) le lo =
      let below : text_le (key x) after ≡ true = elim (text_total (key x) after) [
        | inl p ↦ p
        | inr p ↦ absurd (ground (arith, lo 0 (omega arith), p))
      ] in
      rw below (omega (arith, skip-drop after s xs (omega arith) (λ k p. lo (suc k) (omega arith))))

  -- The binary search and the loop behind it find the first key past the token.
  start_of-skip :
      (after : String) (xs : List A)
      → after ≢ ""
      → Sorted text_order key xs
      → start_of key after xs ≡ skip key after xs
  unfolding start_of
  start_of-skip after xs n s =
      let f =
        search-IsFirst (λ i. at_least key after (get_elem? xs i)) (length xs)
          (λ a b p q h. at_least_mono after xs a b s p q h) in
      let set : after == "" ≡ false = ground (arith, eq_iff after "") in
      rw set (skip-drop after _ xs f.in_range f.below)

  All-get {μ} :
      (P : A → Type μ) (xs : List A) (i : ℕ) (x : A) → All P xs → get_elem? xs i ≡ some x → P x
  All-get P [] i x h e = cc
  All-get P (y ∷ ys) zero x h e = let same : y ≡ x = ground arith in rw (← same) h.0
  All-get P (y ∷ ys) (suc i) x h e = All-get P ys i x h.1 e

  -- Past the token that names the entry at `i` there is the entry behind it.
  skip-at :
      (xs : List A) (i : ℕ) (x : A)
      → Grows xs
      → get_elem? xs i ≡ some x
      → skip key (key x) xs ≡ suc i
  unfolding skip
  skip-at [] i x g e = cc
  skip-at (y ∷ []) zero x g e =
      let same : y ≡ x = ground arith in rw same (ground (arith, text_total (key x) (key x)))
  skip-at (y ∷ z ∷ zs) zero x g e =
      let same : y ≡ x = ground arith in ground (arith, same, text_total (key x) (key x), g.0.0)
  skip-at (y ∷ ys) (suc i) x g e =
      let up : text_le (key x) (key y) ≡ false =
        All-get (λ z. text_le (key z) (key y) ≡ false) ys i x g.0 e in
      ground (arith, skip-at ys i x g.1 e, text_total (key x) (key y), up)

  last_key-take :
      (n : ℕ) (xs : List A) (x : A)
      → get_elem? xs n ≡ some x
      → last_key key (take (suc n) xs) ≡ key x
  unfolding last_key
  last_key-take zero [] x e = cc
  last_key-take (suc n) [] x e = cc
  last_key-take zero (y ∷ ys) x e = ground arith
  last_key-take (suc n) (y ∷ []) x e = cc
  last_key-take (suc n) (y ∷ z ∷ zs) x e = last_key-take n (z ∷ zs) x e

  -- A client that asks for pages of `limit` items until it gets no continue token.
  unfoldable pub walk : ℕ → List A → ℕ → String → List A
  walk zero items limit after = []
  walk (suc fuel) items limit after =
      let got = paginate key items (record { limit = limit; after = after }) in
      let rest = walk fuel items limit got.1 in if got.1 == "" then got.0 else got.0 ++ rest

  Grows-insert_by :
      (x : A) (xs : List A)
      → Grows xs
      → All (λ y. key x ≢ key y) xs
      → Grows (insert_by text_order key x xs)
  unfolding insert_by
  Grows-insert_by x [] g d = (tt, tt)
  Grows-insert_by x (y ∷ ys) g d = elim (Bool-cases (text_le (key x) (key y))) [
    | inl e ↦ rw e ((apart y e d.0, far ys d.1 e g.0), g)
    | inr e ↦ rw e (
      All-insert_by text_order key (λ z. text_le (key z) (key y) ≡ false) x ys e g.0,
      Grows-insert_by x ys g.1 d.1,
    )
  ]
    where
      apart :
          (z : A) → text_le (key x) (key z) ≡ true → key x ≢ key z → text_le (key z) (key x) ≡ false
      apart z up n = elim (Bool-cases (text_le (key z) (key x))) [
        | inl down ↦ absurd (n (text_antisym (key x) (key z) up down))
        | inr e ↦ e
      ]

      far :
          (zs : List A)
          → All (λ z. key x ≢ key z) zs
          → text_le (key x) (key y) ≡ true
          → All (λ z. text_le (key z) (key y) ≡ false) zs
          → All (λ z. text_le (key z) (key x) ≡ false) zs
      far [] a up h = tt
      far (z ∷ zs) a up h = (
        elim (Bool-cases (text_le (key z) (key x))) [
          | inl down ↦ absurd (ground (arith, text_trans (key z) (key x) (key y) down up, h.0))
          | inr e ↦ e
        ],
        far zs a.1 up h.1,
      )

  Grows-sort_by : (xs : List A) → Distinct xs → Grows (sort_by text_order key xs)
  unfolding sort_by
  Grows-sort_by [] d = tt
  Grows-sort_by (x ∷ xs) d =
      Grows-insert_by x (sort_by text_order key xs) (Grows-sort_by xs d.1)
        (All-sort_by text_order key (λ y. key x ≢ key y) xs d.0)

  skip-le : (after : String) (xs : List A) → skip key after xs ≤ length xs
  unfolding skip
  skip-le after [] = omega arith
  skip-le after (x ∷ xs) = ground (arith, skip-le after xs)

  module _ (sorted : List A) (s : Sorted text_order key sorted) (g : Grows sorted)
      (named : All (λ x. key x ≢ "") sorted) (limit : ℕ) (some_limit : 0 < limit) where
    abbrev left_at : String → List A
    left_at after = drop (start_of key after sorted) sorted

    start_of-le : (after : String) → start_of key after sorted ≤ length sorted
    start_of-le after = elim (Bool-cases (after == "")) [
      | inl e ↦ unfold start_of in rw e (omega arith)
      | inr e ↦
          rw (start_of-skip after sorted (λ p. ground (arith, (eq_iff after "").1 p, e)) s)
            (skip-le after sorted)
    ]

    -- A page that is not the last ends where the next one starts.
    page_end :
        (st : ℕ)
        → st + limit < length sorted
        → let next = last_key key (take limit (drop st sorted)) in
          (next ≢ "") × (start_of key next sorted ≡ st + limit)
    page_end st h =
        let (x, e) = get_elem?-lt sorted (st + (limit - 1)) (omega arith) in
        let at : get_elem? (drop st sorted) (limit - 1) ≡ some x =
          get_elem?-drop st (limit - 1) sorted ∙ e in
        let last : last_key key (take (suc (limit - 1)) (drop st sorted)) ≡ key x =
          last_key-take (limit - 1) (drop st sorted) x at in
        let whole : limit ≡ suc (limit - 1) = omega arith in
        let set = All-get (λ y. key y ≢ "") sorted (st + (limit - 1)) x named e in
        rw (whole, last)
          (
            set,
            start_of-skip (key x) sorted set s
                ∙ skip-at sorted (st + (limit - 1)) x g e
                ∙ omega arith,
          )

    page_of-last :
        (after : String)
        → length sorted ≤ start_of key after sorted + limit
        → page_of key (record { limit = limit; after = after }) sorted ≡ (left_at after, "")
    page_of-last after h =
        let size : min (start_of key after sorted + limit) (length sorted) ≡ length sorted =
          omega arith in
        let whole =
          take-length (length sorted - start_of key after sorted) (left_at after)
            (omega (arith, length-drop (start_of key after sorted) sorted)) in
        let at_end : eqb (length sorted) (length sorted) ≡ true = ground arith in
        unfold page_of in rw (size, whole, at_end) refl

    page_of-inner :
        (after : String)
        → start_of key after sorted + limit < length sorted
        → page_of key (record { limit = limit; after = after }) sorted
          ≡ (take limit (left_at after), last_key key (take limit (left_at after)))
    page_of-inner after h =
        let size : min (start_of key after sorted + limit) (length sorted)
            ≡ start_of key after sorted + limit =
          omega arith in
        let same : start_of key after sorted + limit - start_of key after sorted ≡ limit =
          omega arith in
        let not_end : eqb (start_of key after sorted + limit) (length sorted) ≡ false =
          ground arith in
        unfold page_of in rw (size, same, not_end) refl

    rest_of :
        (fuel : ℕ) (items : List A)
        → sort_by text_order key items ≡ sorted
        → (after : String) → length (left_at after) ≤ fuel
        → walk fuel items limit after ≡ left_at after
    unfolding walk paginate
    rest_of zero items e after h = sym (nothing (left_at after) h)
      where
        nothing : (xs : List A) → length xs ≤ 0 → xs ≡ []
        nothing [] l = refl
        nothing (x ∷ xs) l = absurd (omega arith)
    rest_of (suc fuel) items e after h =
        let some' : eqb limit 0 ≡ false = ground arith in
        elim (Bool-cases (leb (length sorted) (start_of key after sorted + limit))) [
          | inl l ↦ rw (some', e, page_of-last after (ground arith)) refl
          | inr l ↦
              let (set, at) = page_end (start_of key after sorted) (ground arith) in
              let next = last_key key (take limit (left_at after)) in
              let more : next == "" ≡ false = ground (arith, eq_iff next "") in
              let shorter = length-drop (start_of key after sorted) sorted in
              let shorter' = length-drop (start_of key after sorted + limit) sorted in
              let inner : start_of key after sorted + limit < length sorted = ground arith in
              let fits : length (left_at next) ≤ fuel =
                rw at (omega (arith, shorter, shorter', inner)) in
              rw
                (
                  some',
                  e,
                  page_of-inner after (ground arith),
                  more,
                  rest_of fuel items e next fits,
                  at,
                )
                (ap (λ xs. take limit (left_at after) ++ xs)
                    (sym (drop-add (start_of key after sorted) limit sorted))
                  ∙ take-append-drop limit (left_at after))
        ]

  start_of-none : (xs : List A) → start_of key "" xs ≡ 0
  unfolding start_of
  start_of-none xs = refl

  -- A client that follows the continue tokens from the first page on, with a limit above 0, over items
  -- whose keys are distinct and not empty, gets every item once, in the order of the keys: as many
  -- requests as there are items are enough.
  pub walk-sort_by :
      (items : List A) (limit fuel : ℕ)
      → Distinct items
      → All (λ x. key x ≢ "") items
      → 0 < limit
      → length items ≤ fuel
      → walk fuel items limit "" ≡ sort_by text_order key items
  walk-sort_by items limit fuel d named some' enough =
      let sorted = sort_by text_order key items in
      let none' = start_of-none sorted in
      let sized = length-sort_by text_order key items in
      rest_of sorted (Sorted-sort_by text_order key items) (Grows-sort_by items d)
        (All-sort_by text_order key (λ x. key x ≢ "") items named) limit some' fuel items refl ""
        (rw none' (omega (arith, sized)))
      ∙ ap (λ n. drop n sorted) none'
