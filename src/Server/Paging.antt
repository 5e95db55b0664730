-- ===== src/Server/Paging.antt =====
-- `paginate` of glidepath/api/internal/server/paging.go. The type of the items and their key are
-- parameters, as in the source; a continue token stands for the key that it encodes.
pub mod Walk
use glidepath.Prelude.{
  ℕ, zero, suc, ◌+◌, ◌-◌, String, Bool, true, false, ◌&&◌, not, List, [], ◌∷◌, ◌++◌, Option, some,
  none, ltb, leb, eqb, if◌then◌else◌, length, take, drop, get_elem?, ◌==◌,
}
use Prim.Native.Nat.{min}
use glidepath.Prelude.Order.{text_order, text_le}
use glidepath.Prelude.Sort.{sort_by}
use glidepath.Prelude.Search.{search}

-- `pageReq`: no limit is 0, and no continue token "".
pub record PageReq : Type 0 where
  pub limit : ℕ
  pub after : String

module _ {ℓ} {A : Type ℓ} (key : A → String) where
  -- `key(sorted[i]) >= after`, the test of `slices.BinarySearchFunc`.
  abbrev pub at_least : String → Option A → Bool
  at_least after none = false
  at_least after (some x) = text_le after (key x)

  -- `for start < len(sorted) && key(sorted[start]) <= p.after { start++ }`, on the list from
  -- `start` on: how far the loop goes.
  unfoldable pub skip : String → List A → ℕ
  skip after [] = 0
  skip after (x ∷ xs) = let rest = skip after xs in if text_le (key x) after then suc rest else 0

  unfoldable pub start_of : String → List A → ℕ
  start_of after sorted =
      if after == ""
      then 0
      else let s = search (length sorted) (λ i. at_least after (get_elem? sorted i)) in
        s + skip after (drop s sorted)

  -- The key of the last item of a page, "" for an empty one.
  unfoldable pub last_key : List A → String
  last_key [] = ""
  last_key (x ∷ []) = key x
  last_key (x ∷ y ∷ ys) = last_key (y ∷ ys)

  unfoldable pub page_of : PageReq → List A → List A × String
  page_of p sorted =
      let start = start_of p.after sorted in
      let end = min (start + p.limit) (length sorted) in
      let page = take (end - start) (drop start sorted) in
      (page, if eqb end (length sorted) then "" else last_key page)

  unfoldable pub paginate : List A → PageReq → List A × String
  paginate items p = if eqb p.limit 0 then (items, "") else page_of p (sort_by text_order key items)
