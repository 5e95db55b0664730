-- ===== src/Dora/Paths/Patch.antt =====
-- What the patch of `reconcile` in dora-exporter/main.go makes of an Application's annotations.
use glidepath.Prelude.{
  ℕ, Bool, ◌≡◌, refl, ◌∙◌, String, true, false, Option, some, none, eq_iff, inl, inr, ◌⊎◌, ◌≢◌,
  arith,
}
use glidepath.Prelude.Dict.{Dict, remove, text_at, text_at-insert, text_at-remove}
use glidepath.Dora.Exporter.{Formats}
use glidepath.Dora.Paths.{patched, failure_patch}

-- The patch ends the wait for the release, whatever else it changes.
pub patched-pending :
    (v : Option (Option String)) (a : Dict String)
    → text_at "hangar.io/dora-pending" (patched v a) ≡ ""
patched-pending none a = text_at-remove "hangar.io/dora-pending" "hangar.io/dora-pending" a
patched-pending (some none) a =
    text_at-remove "hangar.io/dora-last-failure-time" "hangar.io/dora-pending"
      (remove "hangar.io/dora-pending" a)
    ∙ text_at-remove "hangar.io/dora-pending" "hangar.io/dora-pending" a
patched-pending (some (some t)) a =
    text_at-insert "hangar.io/dora-last-failure-time" "hangar.io/dora-pending" t
      (remove "hangar.io/dora-pending" a)
    ∙ text_at-remove "hangar.io/dora-pending" "hangar.io/dora-pending" a

-- The phases in which Argo CD's sync is over.
abbrev pub IsEnded : String → Type 0
IsEnded phase = (phase ≡ "Succeeded") ⊎ ((phase ≡ "Failed") ⊎ (phase ≡ "Error"))

module _ {F : Type 0} (fm : Formats F) where
  -- What the patch leaves of the annotations: the wait is over, a failure's time is noted, one that a
  -- success has made up for is dropped, and nothing else changes.
  pub record IsPatched (phase : String) (finished : ℕ) (cleared : Bool) (a b : Dict String)
      : Type 0 where
    pub over : text_at "hangar.io/dora-pending" b ≡ ""
    pub failure :
        ((phase ≡ "Succeeded")
          × (cleared ≡ true)
          × (text_at "hangar.io/dora-last-failure-time" b ≡ ""))
        ⊎ (((phase ≡ "Succeeded")
              × (cleared ≡ false)
              × (text_at "hangar.io/dora-last-failure-time" b
                  ≡ text_at "hangar.io/dora-last-failure-time" a))
            ⊎ (((phase ≡ "Failed") ⊎ (phase ≡ "Error"))
                × (text_at "hangar.io/dora-last-failure-time" b ≡ fm.format finished)))
    pub rest :
        (j : String)
        → j ≢ "hangar.io/dora-pending"
        → j ≢ "hangar.io/dora-last-failure-time"
        → text_at j b ≡ text_at j a

  patched-rest :
      (v : Option (Option String)) (a : Dict String) (j : String)
      → j ≢ "hangar.io/dora-pending"
      → j ≢ "hangar.io/dora-last-failure-time"
      → text_at j (patched v a) ≡ text_at j a
  patched-rest none a j p f =
      simp text_at-remove (ground (arith, eq_iff "hangar.io/dora-pending" j))
  patched-rest (some none) a j p f = simp text_at-remove (
      ground
        (arith, eq_iff "hangar.io/dora-pending" j, eq_iff "hangar.io/dora-last-failure-time" j))
  patched-rest (some (some t)) a j p f =
      simp (text_at-insert, text_at-remove)
        (ground
          (arith, eq_iff "hangar.io/dora-pending" j, eq_iff "hangar.io/dora-last-failure-time" j))

  pub patched-IsPatched :
      (phase : String) (finished : ℕ) (cleared : Bool) (a : Dict String)
      → IsEnded phase
      → IsPatched phase finished cleared a (patched (failure_patch fm phase cleared finished) a)
  patched-IsPatched phase finished cleared a ended = record {
    over = patched-pending (failure_patch fm phase cleared finished) a;
    failure = failure ended cleared;
    rest = patched-rest (failure_patch fm phase cleared finished) a;
  }
    where
      failure :
          IsEnded phase
          → (c : Bool)
          → let b = patched (failure_patch fm phase c finished) a in
            ((phase ≡ "Succeeded")
              × (c ≡ true)
              × (text_at "hangar.io/dora-last-failure-time" b ≡ ""))
            ⊎ (((phase ≡ "Succeeded")
                  × (c ≡ false)
                  × (text_at "hangar.io/dora-last-failure-time" b
                      ≡ text_at "hangar.io/dora-last-failure-time" a))
                ⊎ (((phase ≡ "Failed") ⊎ (phase ≡ "Error"))
                    × (text_at "hangar.io/dora-last-failure-time" b ≡ fm.format finished)))
      failure (inl e) true = rw e (inl (refl, refl, simp text_at-remove))
      failure (inl e) false = rw e (inr (inl (refl, refl, simp text_at-remove)))
      failure (inr (inl e)) c = rw e (inr (inr (inl refl, simp text_at-insert)))
      failure (inr (inr e)) c = rw e (inr (inr (inr refl, simp text_at-insert)))
