-- ===== src/Dora/Exporter/Keys.antt =====
-- The keys of the exporter's ConfigMaps: `appStateKey` and `splitStateKey` of dora-exporter/main.go.
use Prim.Native.String.{◌++◌ as text_append}
use text.Mathlib.TextLemmas.{cons-append, nil-append, append-nil}
use glidepath.Prelude.{String, ◌≡◌, refl, ap, ◌∙◌, sym, false, some, arith}
use glidepath.Prelude.Text.{Cut, found, missing, cut, contains, concat}
use glidepath.Prelude.Text.Cuts.{cut-append, cut-found}
use glidepath.Dora.Exporter.{app_state_key, split_state_key}

pub app_state_key-append :
    (ns app : String) → app_state_key ns app ≡ text_append ns (String.◌∷◌ "." app)
unfolding app_state_key concat
app_state_key-append ns app = ap (text_append ns) (
    cons-append "." "" (text_append app "")
    ∙ ap (String.◌∷◌ ".") (nil-append (text_append app "") ∙ append-nil app))

split_found :
    (key ns app : String) → cut b'.' key ≡ found ns app → split_state_key key ≡ some (ns, app)
unfolding split_state_key
split_found key ns app e = rw (split_state_key, e) refl

pub split_state_key-app_state_key :
    (ns app : String)
    → contains b'.' ns ≡ false
    → split_state_key (app_state_key ns app) ≡ some (ns, app)
split_state_key-app_state_key ns app h =
    ap split_state_key (app_state_key-append ns app)
    ∙ split_found (text_append ns (String.◌∷◌ "." app)) ns app (cut-append "." ns app h)

-- A key that is split is the key of its two parts.
pub app_state_key-split :
    (key ns app : String)
    → split_state_key key ≡ some (ns, app)
    → (key ≡ app_state_key ns app) × (contains b'.' ns ≡ false)
unfolding split_state_key
app_state_key-split key ns app h = by_cut (cut b'.' key) refl (ground arith)
  where
    by_cut :
        (k : Cut)
        → cut b'.' key ≡ k
        → k ≡ found ns app
        → (key ≡ app_state_key ns app) × (contains b'.' ns ≡ false)
    by_cut missing e f = cc
    by_cut (found a b) e f =
        let (whole, clean) = cut-found "." key ns app (e ∙ f) in
        (whole ∙ sym (app_state_key-append ns app), clean)

pub app_state_key-injective :
    (ns app a b : String)
    → contains b'.' ns ≡ false
    → contains b'.' a ≡ false
    → app_state_key ns app ≡ app_state_key a b
    → (ns ≡ a) × (app ≡ b)
app_state_key-injective ns app a b n h e =
    let parts =
      sym (split_state_key-app_state_key ns app n)
      ∙ ap split_state_key e
      ∙ split_state_key-app_state_key a b h in
    (cc (parts), cc (parts))
