-- ===== src/Server/Examples.antt =====
-- Two pages of a list of three.
use glidepath.Prelude.{◌≡◌, ◌≢◌, String, List, [], ◌∷◌, All, arith, refl, ◌==◌, false, eq_iff}
use glidepath.Prelude.Order.{text_order}
use glidepath.Prelude.Sort.{sort_by}
use glidepath.Server.Paging.Walk.{Distinct, walk, walk-sort_by}

abbrev names : List String
names = "shop/web" ∷ "shop/api" ∷ "auth/web" ∷ []

differ : (s t : String) → s == t ≡ false → s ≢ t
differ s t h e = ground (arith, (eq_iff s t).1 e, h)

names-Distinct : Distinct (λ s. s) names
names-Distinct = (
  (differ "shop/web" "shop/api" refl, (differ "shop/web" "auth/web" refl, tt)),
  ((differ "shop/api" "auth/web" refl, tt), (tt, tt)),
)

names_set : All (λ s. s ≢ "") names
names_set = ((λ e. cc), ((λ e. cc), ((λ e. cc), tt)))

walk-sort_by_example : walk (λ s. s) 3 names 2 "" ≡ sort_by text_order (λ s. s) names
walk-sort_by_example =
    walk-sort_by (λ s. s) names 2 3 names-Distinct names_set (omega arith) (omega arith)
