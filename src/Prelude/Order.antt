-- ===== src/Prelude/Order.antt =====
-- Keys with a total preorder, as the sorts and searches of the program use them.
use Prim.Native.Nat.{ℕ}
use mathlib.Core.Path.{◌≡◌, refl}
use mathlib.Core.Logic.{◌⊎◌, inl, inr}
use mathlib.Core.Bool.{Bool, true, false}
use native.Mathlib.Omega.{arith}
use Prim.Native.String.{String}
use Prim.Native.Char.{code}
use text.Mathlib.TextEquality.{Char-path}
use glidepath.Prelude.Tests.{leb, ltb, if◌then◌else◌}

-- `le` is Go's `<=` on the keys.
pub record Order {ℓ} (K : Type ℓ) : Type ℓ where
  pub le : K → K → Bool
  pub total : (a b : K) → (le a b ≡ true) ⊎ (le b a ≡ true)
  pub trans : (a b c : K) → le a b ≡ true → le b c ≡ true → le a c ≡ true

pub leb_total : (a b : ℕ) → (leb a b ≡ true) ⊎ (leb b a ≡ true)
leb_total a b = ground arith

pub leb_trans : (a b c : ℕ) → leb a b ≡ true → leb b c ≡ true → leb a c ≡ true
leb_trans a b c p q = ground arith

abbrev pub nat_order : Order ℕ
nat_order = record { le = leb; total = leb_total; trans = leb_trans }

-- Go's `<=` on texts, by their code points; for valid UTF-8 that is the order of the bytes.
unfoldable pub text_le : String → String → Bool
text_le String.[] t = true
text_le (String.◌∷◌ c s) String.[] = false
text_le (String.◌∷◌ c s) (String.◌∷◌ d t) =
    let rest = text_le s t in
    if ltb (code c) (code d) then true else if ltb (code d) (code c) then false else rest

pub text_total : (s t : String) → (text_le s t ≡ true) ⊎ (text_le t s ≡ true)
unfolding text_le
text_total String.[] String.[] = inl refl
text_total String.[] (String.◌∷◌ d t) = inl refl
text_total (String.◌∷◌ c s) String.[] = inr refl
text_total (String.◌∷◌ c s) (String.◌∷◌ d t) = ground (arith, text_total s t)

pub text_trans : (s t u : String) → text_le s t ≡ true → text_le t u ≡ true → text_le s u ≡ true
unfolding text_le
text_trans String.[] t u p q = refl
text_trans (String.◌∷◌ c s) String.[] u p q = ground arith
text_trans (String.◌∷◌ c s) (String.◌∷◌ d t) String.[] p q = ground arith
text_trans (String.◌∷◌ c s) (String.◌∷◌ d t) (String.◌∷◌ e u) p q = ground (arith, text_trans s t u)

abbrev pub text_order : Order String
text_order = record { le = text_le; total = text_total; trans = text_trans }

pub text_antisym : (s t : String) → text_le s t ≡ true → text_le t s ≡ true → s ≡ t
unfolding text_le
text_antisym String.[] String.[] p q = refl
text_antisym String.[] (String.◌∷◌ d t) p q = cc
text_antisym (String.◌∷◌ c s) String.[] p q = cc
text_antisym (String.◌∷◌ c s) (String.◌∷◌ d t) p q =
    let same : c ≡ d = Char-path c d (ground arith) in
    cc (same, text_antisym s t (ground arith) (ground arith))
