-- ===== src/Environments/Rollback/Plan.antt =====
-- What a rollback plan of glidepath/api/internal/environments/rollback.go offers.
use glidepath.Prelude.{
  ℕ, zero, suc, ◌≡◌, ◌≢◌, ◌≤◌, refl, String, Bool, true, false, ◌||◌, not, List, [], ◌∷◌, Option,
  some, none, ◌==◌, eq_iff, ltb, take, keep, length, length-take, get_elem?, All, arith, Bool-cases,
  inl, inr, ◌⊎◌,
}
use glidepath.Prelude.Sort.{sort_by, any, any-sort_by, Sorted, Sorted-sort_by, All-sort_by}
use glidepath.Environments.Rollback.{
  Record, has_run, Current, Target, latest, at, current_of, is_current, is_complete, target_of,
  choose, js_time, created, was_healthy, ran, window, plan_rollback,
}

-- `r` is a record of the list.
abbrev pub IsAmong : List Record → Record → Type 0
IsAmong rs r = (i : ℕ) × (get_elem? rs i ≡ some r)

All-map {ℓ κ μ} :
    {A : Type ℓ} (P : A → Type κ) (Q : A → Type μ) (xs : List A)
    → ((x : A) → P x → Q x)
    → All P xs
    → All Q xs
All-map P Q [] f h = tt
All-map P Q (x ∷ xs) f h = (f x h.0, All-map P Q xs f h.1)

All-IsAmong : (rs : List Record) → All (IsAmong rs) rs
All-IsAmong [] = tt
All-IsAmong (r ∷ rs) =
    ((0, refl), All-map (IsAmong rs) (IsAmong (r ∷ rs)) rs (λ x m. (suc m.0, m.1)) (All-IsAmong rs))

All-keep {κ} :
    (P : Record → Type κ) (p : Record → Bool) (rs : List Record)
    → All P rs
    → All (λ r. P r × (p r ≡ true)) (keep p rs)
All-keep P p [] h = tt
All-keep P p (r ∷ rs) h = elim (Bool-cases (p r)) [
  | inl e ↦ rw e ((h.0, e), All-keep P p rs h.1)
  | inr e ↦ rw e (All-keep P p rs h.1)
]

All-take {ℓ κ} : {A : Type ℓ} (P : A → Type κ) (n : ℕ) (xs : List A) → All P xs → All P (take n xs)
All-take P zero xs h = tt
All-take P (suc n) [] h = tt
All-take P (suc n) (x ∷ xs) h = (h.0, All-take P n xs h.1)

-- What the loop takes from a record it offers.
All-choose {κ μ} :
    (P : Record → Type κ) (Q : Target → Type μ) (cur : Option Current) (seen : List String)
    (rs : List Record)
    → ((r : Record) → P r → is_complete r ≡ true → is_current cur r ≡ false → Q (target_of r))
    → All P rs
    → All Q (choose cur seen rs)
unfolding choose
All-choose P Q cur seen [] f h = tt
All-choose P Q cur seen (r ∷ rs) f h = elim (Bool-cases (is_complete r)) [
  | inr c ↦ rw c (All-choose P Q cur seen rs f h.1)
  | inl c ↦ elim (Bool-cases (is_current cur r)) [
    | inl k ↦ rw (c, k) (All-choose P Q cur seen rs f h.1)
    | inr k ↦ elim (Bool-cases (any (λ i. i == at "image" r) seen)) [
      | inl s ↦ rw (c, k, s) (All-choose P Q cur seen rs f h.1)
      | inr s ↦ rw (c, k, s) (f r h.0 c k, All-choose P Q cur (at "image" r ∷ seen) rs f h.1)
    ]
  ]
]

length-choose :
    (cur : Option Current) (seen : List String) (rs : List Record)
    → length (choose cur seen rs) ≤ length rs
unfolding choose
length-choose cur seen [] = omega arith
length-choose cur seen (r ∷ rs) =
    ground (arith, length-choose cur seen rs, length-choose cur (at "image" r ∷ seen) rs)

-- No image twice.
abbrev pub Distinct : List Target → Type 0
Distinct [] = Unit
Distinct (t ∷ ts) = All (λ u. t.image ≢ u.image) ts × Distinct ts

Fresh : List String → Target → Type 0
Fresh seen t = any (λ i. i == t.image) seen ≡ false

choose-Distinct :
    (cur : Option Current) (seen : List String) (rs : List Record)
    → All (Fresh seen) (choose cur seen rs) × Distinct (choose cur seen rs)
unfolding choose Fresh
choose-Distinct cur seen [] = (tt, tt)
choose-Distinct cur seen (r ∷ rs) = elim (Bool-cases (is_complete r)) [
  | inr c ↦ rw c (choose-Distinct cur seen rs)
  | inl c ↦ elim (Bool-cases (is_current cur r || any (λ i. i == at "image" r) seen)) [
    | inl k ↦ rw (c, k) (choose-Distinct cur seen rs)
    | inr k ↦
        let (f, d) = choose-Distinct cur (at "image" r ∷ seen) rs in
        rw (c, k)
          (
            (
              ground (arith, k),
              All-map (Fresh (at "image" r ∷ seen)) (Fresh seen)
                  (choose cur (at "image" r ∷ seen) rs) (λ t h. ground (arith, h)) f,
            ),
            (
              All-map (Fresh (at "image" r ∷ seen)) (λ u. at "image" r ≢ u.image)
                  (choose cur (at "image" r ∷ seen) rs)
                  (λ t h e. ground (arith, h, (eq_iff (at "image" r) t.image).1 e)) f,
              d,
            ),
          )
  ]
]

module _ (parse : String → Option ℕ) where
  -- The later a target was healthy, the earlier it is listed.
  abbrev pub LatestFirst : List Target → Type 0
  LatestFirst = Sorted latest (λ (t : Target). js_time parse t.healthy_at)

  Sorted-take :
      (n : ℕ) (rs : List Record)
      → Sorted latest (was_healthy parse) rs
      → Sorted latest (was_healthy parse) (take n rs)
  Sorted-take zero rs h = tt
  Sorted-take (suc n) [] h = tt
  Sorted-take (suc n) (r ∷ rs) h = (All-take _ n rs h.0, Sorted-take n rs h.1)

  choose-LatestFirst :
      (cur : Option Current) (seen : List String) (rs : List Record)
      → Sorted latest (was_healthy parse) rs
      → LatestFirst (choose cur seen rs)
  unfolding choose
  choose-LatestFirst cur seen [] h = tt
  choose-LatestFirst cur seen (r ∷ rs) h = elim (Bool-cases (is_complete r)) [
    | inr c ↦ rw c (choose-LatestFirst cur seen rs h.1)
    | inl c ↦ elim (Bool-cases (is_current cur r || any (λ i. i == at "image" r) seen)) [
      | inl k ↦ rw (c, k) (choose-LatestFirst cur seen rs h.1)
      | inr k ↦
          rw (c, k)
            (
              All-choose (λ x. latest.le (was_healthy parse r) (was_healthy parse x) ≡ true)
                  (λ t. latest.le (was_healthy parse r) (js_time parse t.healthy_at) ≡ true) cur
                  (at "image" r ∷ seen) rs (λ x p c' k'. p) h.0,
              choose-LatestFirst cur (at "image" r ∷ seen) rs h.1,
            )
    ]
  ]

  -- Where a target comes from.
  pub record IsEligible (rs : List Record) (cur : Option Current) (t : Target) : Type 0 where
    pub release : Record
    pub among : IsAmong rs release
    pub was_healthy : at "healthyAt" release ≢ ""
    pub complete : is_complete release ≡ true
    pub other : is_current cur release ≡ false
    pub made : t ≡ target_of release

  -- A plan offers at most five targets, no two of one image, the latest healthy first; each is a
  -- record of the list that has been healthy and has its image, its revision, its URL and its
  -- release id, and neither the current release nor one with its image.
  pub plan_rollback-IsEligible :
      (rs : List Record)
      → let p = plan_rollback parse rs in
        (length p.targets ≤ 5)
        × Distinct p.targets
        × LatestFirst p.targets
        × All (IsEligible rs p.current) p.targets
  unfolding plan_rollback ran window
  plan_rollback-IsEligible rs =
      let p = plan_rollback parse rs in
      let old = keep (λ r. not (at "healthyAt" r == "")) rs in
      let sorted = sort_by latest (was_healthy parse) old in
      let few = length-choose p.current [] (window parse rs) in
      let five = length-take 5 sorted in
      (
        omega (arith, few, five),
        (choose-Distinct p.current [] (window parse rs)).1,
        choose-LatestFirst p.current [] (window parse rs)
            (Sorted-take 5 sorted (Sorted-sort_by latest (was_healthy parse) old)),
        All-choose (λ r. IsAmong rs r × (not (at "healthyAt" r == "") ≡ true))
            (IsEligible rs p.current) p.current [] (window parse rs)
            (λ r m c k. record {
              release = r;
              among = m.0;
              was_healthy = ground (arith, m.1, eq_iff (at "healthyAt" r) "");
              complete = c;
              other = k;
              made = refl;
            })
            (All-take _ 5 sorted (
              All-sort_by latest (was_healthy parse) _ old
                (All-keep (IsAmong rs) (λ r. not (at "healthyAt" r == "")) rs (All-IsAmong rs)))),
      )

  any-none : (p : Record → Bool) (rs : List Record) → All (λ r. p r ≡ false) rs → any p rs ≡ false
  any-none p [] h = refl
  any-none p (r ∷ rs) h = ground (arith, h.0, any-none p rs h.1)

  any-keep :
      (p q : Record → Bool) (rs : List Record)
      → any p (keep q rs) ≡ false
      → All (λ r. q r ≡ true → p r ≡ false) rs
  any-keep p q [] h = tt
  any-keep p q (r ∷ rs) h = elim (Bool-cases (q r)) [
    | inl e ↦ ((λ x. ground (arith, e, h)), any-keep p q rs (ground (arith, e, h)))
    | inr e ↦ ((λ x. absurd (ground (arith, e, x))), any-keep p q rs (ground (arith, e, h)))
  ]

  -- The current release is the one that ran and was created last; there is none exactly if no
  -- record of the list is in a state of a release that ran.
  pub plan_rollback-current :
      (rs : List Record)
      → ((plan_rollback parse rs).current ≡ none) × All (λ r. has_run (at "state" r) ≡ false) rs
        ⊎ ((r : Record) × IsAmong rs r
            × (has_run (at "state" r) ≡ true)
            × ((plan_rollback parse rs).current ≡ current_of (r ∷ []))
            × All (λ x. has_run (at "state" x) ≡ true → created parse x ≤ created parse r) rs)
  unfolding plan_rollback ran
  plan_rollback-current rs =
      by_ran (ran parse rs) refl
        (All-sort_by latest (created parse) (λ r. IsAmong rs r × (has_run (at "state" r) ≡ true))
          (keep (λ r. has_run (at "state" r)) rs)
          (All-keep (IsAmong rs) (λ r. has_run (at "state" r)) rs (All-IsAmong rs)))
        (Sorted-sort_by latest (created parse) (keep (λ r. has_run (at "state" r)) rs))
    where
      late : Record → Record → Bool
      late r x = ltb (created parse r) (created parse x)

      by_ran :
          (s : List Record)
          → ran parse rs ≡ s
          → All (λ r. IsAmong rs r × (has_run (at "state" r) ≡ true)) s
          → Sorted latest (created parse) s
          → (current_of s ≡ none) × All (λ r. has_run (at "state" r) ≡ false) rs
            ⊎ ((r : Record) × IsAmong rs r
                × (has_run (at "state" r) ≡ true)
                × (current_of s ≡ current_of (r ∷ []))
                × All (λ x. has_run (at "state" x) ≡ true → created parse x ≤ created parse r) rs)
      by_ran [] e m o =
          let empty =
            any-sort_by latest (created parse) (λ r. true)
              (keep (λ r. has_run (at "state" r)) rs) in
          inl (
            refl,
            All-map (λ r. has_run (at "state" r) ≡ true → true ≡ false)
                (λ r. has_run (at "state" r) ≡ false) rs
                (λ r h. elim (Bool-cases (has_run (at "state" r))) [
                  | inl y ↦ absurd (ground (arith, h y))
                  | inr n ↦ n
                ])
                (any-keep (λ r. true) (λ r. has_run (at "state" r)) rs (ground (arith, empty, e))),
          )
      by_ran (r ∷ s) e m o =
          let moved =
            any-sort_by latest (created parse) (late r) (keep (λ r. has_run (at "state" r)) rs) in
          let none_late : any (late r) (r ∷ s) ≡ false = ground (
            arith,
            any-none (late r) s
                (All-map _ (λ x. late r x ≡ false) s (λ x h. ground (arith, h)) o.0),
          ) in
          inr (
            r,
            m.0.0,
            m.0.1,
            refl,
            All-map (λ x. has_run (at "state" x) ≡ true → late r x ≡ false)
                (λ x. has_run (at "state" x) ≡ true → created parse x ≤ created parse r) rs
                (λ x h y. let f = h y in ground (arith, f))
                (any-keep (late r) (λ r. has_run (at "state" r)) rs
                  (ground (arith, moved, e, none_late))),
          )
