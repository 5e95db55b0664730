-- ===== src/Environments/Promote/Next.antt =====
-- A promotion of environments/promote.go goes one stage on in the application's own order.
use glidepath.Prelude.{
  ℕ, suc, String, ◌≡◌, refl, sym, ap, ◌∙◌, Bool, true, false, not, List, [], ◌∷◌, ◌++◌, Option,
  some, none, ◌==◌, eq_iff, if◌then◌else◌, All, Bool-cases, inl, inr, ◌⊎◌, arith,
}
use glidepath.Environments.Plan.{ReleasePlan, is_lower, index_in, after_one}
use glidepath.Environments.Runs.{
  Answer, fails, gives, and_then, refused, invalid, is_env_name, ApiServer, Runs,
}
use glidepath.Environments.Source.{Libraries, GitHub, App, PromoteRequest}
use glidepath.Environments.Promote.{
  validate, is_next, is_first, check_order, Promotion, fetch_plan, from_plan, plan_promotion,
  PromoteResult, promote, carry_out,
}

abbrev or_zero : Option ℕ → ℕ
or_zero none = 0
or_zero (some n) = n

-- What a chain of answers needs for an answer.
pub and_then-gives :
    {A B : Type 0} (a : Answer A) (f : A → Answer B) (b : B)
    → and_then a f ≡ gives b
    → (x : A) × (a ≡ gives x) × (f x ≡ gives b)
and_then-gives (fails e) f b h = absurd cc
and_then-gives (gives x) f b h = (x, refl, h)

-- In the order, the first name that is the target's comes right after the first that is the source's.
pub record IsAfter (fold : String → String → Bool) (order : List String) (s t : String)
    : Type 0 where
  pub before : List String
  pub source : String
  pub target : String
  pub rest : List String
  pub split : order ≡ before ++ source ∷ target ∷ rest
  pub is_source : fold source s ≡ true
  pub is_target : fold target t ≡ true
  pub first_source : All (λ e. fold e s ≡ false) before
  pub first_target : All (λ e. fold e t ≡ false) (before ++ source ∷ [])

module _ (fold : String → String → Bool) where
  -- Where a name is found: at the front, or in the rest.
  index_in-cases :
      (e : String) (es : List String) (x : String) (j : ℕ)
      → index_in fold (e ∷ es) x ≡ some j
      → (fold e x ≡ true) × (j ≡ 0)
        ⊎ (fold e x ≡ false) × (k : ℕ) × (j ≡ suc k) × (index_in fold es x ≡ some k)
  unfolding index_in
  index_in-cases e es x j h = by_cases (fold e x) (index_in fold es x) refl refl h
    where
      by_cases :
          (b : Bool) (o : Option ℕ)
          → fold e x ≡ b
          → index_in fold es x ≡ o
          → (if b then some 0 else after_one o) ≡ some j
          → (fold e x ≡ true) × (j ≡ 0)
            ⊎ (fold e x ≡ false) × (k : ℕ) × (j ≡ suc k) × (index_in fold es x ≡ some k)
      by_cases true o p q g = inl (p, sym (ap or_zero g))
      by_cases false none p q g = absurd cc
      by_cases false (some k) p q g = inr (p, k, sym (ap or_zero g), q)

  index_in-first :
      (es : List String) (t : String)
      → index_in fold es t ≡ some 0
      → (e : String) × (rest : List String) × (es ≡ e ∷ rest) × (fold e t ≡ true)
  index_in-first [] t h = absurd (unfold index_in in cc)
  index_in-first (e ∷ es) t h = elim (index_in-cases e es t 0 h) [
    | inl (here, z) ↦ (e, es, refl, here)
    | inr (other, k, z, q) ↦ absurd (omega (arith, z))
  ]

  index_in-IsAfter :
      (es : List String) (s t : String) (i : ℕ)
      → index_in fold es s ≡ some i
      → index_in fold es t ≡ some (suc i)
      → IsAfter fold es s t
  index_in-IsAfter [] s t i h k = absurd (unfold index_in in cc)
  index_in-IsAfter (e ∷ es) s t i h k =
      by_cases (index_in-cases e es s i h) (index_in-cases e es t (suc i) k)
        (λ m p q. index_in-IsAfter es s t m p q)
    where
      by_cases :
          (fold e s ≡ true) × (i ≡ 0)
            ⊎ (fold e s ≡ false) × (m : ℕ) × (i ≡ suc m) × (index_in fold es s ≡ some m)
          → (fold e t ≡ true) × (suc i ≡ 0)
            ⊎ (fold e t ≡ false) × (m : ℕ) × (suc i ≡ suc m) × (index_in fold es t ≡ some m)
          → ((m : ℕ)
              → index_in fold es s ≡ some m
              → index_in fold es t ≡ some (suc m)
              → IsAfter fold es s t)
          → IsAfter fold (e ∷ es) s t
      by_cases a (inl (here, z)) later = absurd (omega (arith, z))
      by_cases (inl (here, z)) (inr (other, m, y, q)) later =
          let (t', rest, split, own) = index_in-first es t (q ∙ ap some (omega (arith, y, z))) in
          record {
            before = [];
            source = e;
            target = t';
            rest = rest;
            split = ap (λ r. e ∷ r) split;
            is_source = here;
            is_target = own;
            first_source = tt;
            first_target = (other, tt);
          }
      by_cases (inr (past, n, y, p)) (inr (other, m, z, q)) later =
          let w = later n p (q ∙ ap some (omega (arith, y, z))) in
          record {
            before = e ∷ w.before;
            source = w.source;
            target = w.target;
            rest = w.rest;
            split = ap (λ r. e ∷ r) w.split;
            is_source = w.is_source;
            is_target = w.is_target;
            first_source = (past, w.first_source);
            first_target = (other, w.first_target);
          }

  is_next-IsAfter :
      (es : List String) (s t : String) (a b : Option ℕ)
      → index_in fold es s ≡ a
      → index_in fold es t ≡ b
      → is_next a b ≡ true
      → IsAfter fold es s t
  is_next-IsAfter es s t none b p q h = absurd cc
  is_next-IsAfter es s t (some i) none p q h = absurd cc
  is_next-IsAfter es s t (some i) (some j) p q h =
      index_in-IsAfter es s t i p (q ∙ ap some (ground (arith, h)))

  is_first-cons :
      (es : List String) (t : String)
      → is_first fold es t ≡ true
      → (e : String) × (rest : List String) × (es ≡ e ∷ rest) × (fold e t ≡ true)
  is_first-cons [] t h = absurd cc
  is_first-cons (e ∷ es) t h = (e, es, refl, h)

  -- A target that the checks of the order let through.
  pub record IsNext (p : ReleasePlan) (s t : String) : Type 0 where
    pub flight : is_lower fold p t ≡ false
    pub place :
        (s ≡ "") × ((e : String) × (rest : List String) × (p.order ≡ e ∷ rest) × (fold e t ≡ true))
        ⊎ IsAfter fold p.order s t

  let_through :
      (in_order low tier b : Bool)
      → Path
          (Answer Bool)
          (if not in_order then fails refused else if low then fails refused else gives tier)
          (gives b)
      → (in_order ≡ true) × (low ≡ false)
  let_through false low tier b h = absurd cc
  let_through true true tier b h = absurd cc
  let_through true false tier b h = (refl, refl)

  check_order-IsNext :
      (p : ReleasePlan) (s t : String) (b : Bool) → check_order fold p s t ≡ gives b → IsNext p s t
  unfolding check_order
  check_order-IsNext p s t b h =
      let (ordered, high) = let_through _ _ _ b h in
      record {
        flight = high;
        place = elim (Bool-cases (s == "")) [
          | inl first ↦ inl (
            (eq_iff s "").0 first,
            is_first-cons p.order t (
                sym (
                  ap
                    (λ c.
                      if c
                      then is_first fold p.order t
                      else is_next (index_in fold p.order s) (index_in fold p.order t))
                    first)
                ∙ ordered),
          )
          | inr later ↦ inr (
              is_next-IsAfter p.order s t (index_in fold p.order s) (index_in fold p.order t) refl
                refl
                (sym (
                    ap
                      (λ c.
                        if c
                        then is_first fold p.order t
                        else is_next (index_in fold p.order s) (index_in fold p.order t))
                      later)
                  ∙ ordered))
        ];
      }

passed :
    (v w : Bool) (a : Answer Promotion) (m : Promotion)
    → Path
        (Answer Promotion)
        (if not v then fails invalid else if not w then fails invalid else a)
        (gives m)
    → (v ≡ true) × (w ≡ true) × (a ≡ gives m)
passed false w a m h = absurd cc
passed true false a m h = absurd cc
passed true true a m h = (refl, refl, h)

plan_promotion-accepted :
    (lib : Libraries) (gh : GitHub) (app : App) (target : String) (req : PromoteRequest)
    (initiator : String) (m : Promotion)
    → plan_promotion lib gh app target req initiator ≡ gives m
    → (is_env_name target ≡ true)
      × (validate req ≡ true)
      × (and_then (fetch_plan lib gh app) (from_plan lib gh app target req initiator) ≡ gives m)
unfolding plan_promotion
plan_promotion-accepted lib gh app target req initiator m e =
    passed (is_env_name target) (validate req) _ m e

-- `Promote` answers with a pull request or a run only for a request that `Validate` accepts, and for a
-- target that is no Ground environment of the plan that it read and is either, for a request without
-- a source environment, the first of the plan's order, or the one right after the source: the first name
-- of the order that is the target's stands right after the first that is the source's.
pub promote-IsNext :
    (lib : Libraries) (gh : GitHub) (app : App) (api : ApiServer) (target : String)
    (req : PromoteRequest) (initiator key_hash : String) (dry : Bool) (runs : Runs)
    (r : PromoteResult)
    → (promote lib gh app api target req initiator key_hash dry runs).1 ≡ gives r
    → (is_env_name target ≡ true)
      × (validate req ≡ true)
      × (p : ReleasePlan) × (fetch_plan lib gh app ≡ gives p)
      × IsNext lib.fold p req.source_env target
unfolding promote
promote-IsNext lib gh app api target req initiator key_hash dry runs r h =
    let (m, e) = carried (plan_promotion lib gh app target req initiator) h in
    let (name, valid, k) = plan_promotion-accepted lib gh app target req initiator m e in
    let (p, read, f) =
      and_then-gives (fetch_plan lib gh app) (from_plan lib gh app target req initiator) m k in
    let (b, c, g) = and_then-gives (check_order lib.fold p req.source_env target) _ m f in
    (name, valid, p, read, check_order-IsNext lib.fold p req.source_env target b c)
  where
    carried :
        (a : Answer Promotion)
        → (carry_out api key_hash dry runs a).1 ≡ gives r
        → (m : Promotion) × (a ≡ gives m)
    carried (fails e) g = absurd cc
    carried (gives m) g = (m, refl)
