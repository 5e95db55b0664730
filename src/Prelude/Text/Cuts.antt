-- ===== src/Prelude/Text/Cuts.antt =====
-- What `strings.Cut` and `strings.CutPrefix` answer, and for which texts.
use Prim.Native.Char.{Char, code}
use Prim.Native.String.{String, ◌++◌ as text_append}
use mathlib.Core.Path.{◌≡◌, refl}
use mathlib.Core.Logic.{inl, inr}
use mathlib.Core.Bool.{false}
use mathlib.Core.Option.{some}
use native.Mathlib.Omega.{arith}
use text.Mathlib.TextLemmas.{cons-append, nil-append}
use text.Mathlib.TextEquality.{Char-path}
use glidepath.Prelude.Tests.{eqb, Bool-cases}
use glidepath.Prelude.Text.{Cut, found, missing, cut, contains, before, strip_prefix}

pub cut-append :
    (sep : Char) (s t : String)
    → contains (code sep) s ≡ false
    → cut (code sep) (text_append s (String.◌∷◌ sep t)) ≡ found s t
unfolding cut contains
cut-append sep String.[] t h = rw nil-append (ground arith)
cut-append sep (String.◌∷◌ c s) t h = rw cons-append (ground (arith, cut-append sep s t))

-- `a` is what stands before the first `sep`, and `b` what stands behind it.
abbrev pub Splits : Char → String → String → String → Type 0
Splits sep s a b = (s ≡ text_append a (String.◌∷◌ sep b)) × (contains (code sep) a ≡ false)

Splits-cons :
    (sep c : Char) (s : String) (r : Cut) (a b : String)
    → eqb (code c) (code sep) ≡ false
    → ((a' b' : String) → r ≡ found a' b' → Splits sep s a' b')
    → before c r ≡ found a b
    → Splits sep (String.◌∷◌ c s) a b
unfolding contains
Splits-cons sep c s missing a b e ih h = cc
Splits-cons sep c s (found a' b') a b e ih h =
    let p : String.◌∷◌ c a' ≡ a = ground arith in
    let q : b' ≡ b = ground arith in
    let (whole, clean) = ih a' b' refl in
    rw (← p, ← q) (cc (cons-append c a' (String.◌∷◌ sep b'), whole), rw e clean)

pub cut-found : (sep : Char) (s a b : String) → cut (code sep) s ≡ found a b → Splits sep s a b
unfolding cut contains
cut-found sep String.[] a b h = cc
cut-found sep (String.◌∷◌ c s) a b h = elim (Bool-cases (eqb (code c) (code sep))) [
  | inl e ↦
      let same : c ≡ sep = Char-path c sep (ground arith) in
      let nothing : "" ≡ a = ground arith in
      let rest : s ≡ b = ground arith in
      rw (← nothing, ← rest) (cc (same, nil-append (String.◌∷◌ sep s)), refl)
  | inr e ↦ Splits-cons sep c s (cut (code sep) s) a b e (cut-found sep s) (ground arith)
]

pub strip_prefix-some : (p s r : String) → strip_prefix p s ≡ some r → s ≡ text_append p r
unfolding strip_prefix
strip_prefix-some String.[] s r h = rw nil-append (cc (h))
strip_prefix-some (String.◌∷◌ p ps) String.[] r h = cc
strip_prefix-some (String.◌∷◌ p ps) (String.◌∷◌ c s) r h =
    elim (Bool-cases (eqb (code p) (code c))) [
      | inr e ↦ absurd (ground (arith, e, h))
      | inl e ↦
          let same : p ≡ c = Char-path p c (ground arith) in
          let rest : s ≡ text_append ps r = strip_prefix-some ps s r (ground (arith, e, h)) in
          cc (cons-append p ps r, same, rest)
    ]

pub strip_prefix-append : (p s : String) → strip_prefix p (text_append p s) ≡ some s
unfolding strip_prefix
strip_prefix-append String.[] s = rw nil-append (ground arith)
strip_prefix-append (String.◌∷◌ p ps) s = rw cons-append (ground (arith, strip_prefix-append ps s))
