-- ===== src/Log/Edited.antt =====
-- Texts from which parts are cut, with a marker in the place of each: what `RedactString` and
-- `sanitizeError` make of a text.
use t_cloud_public_csi_drive.Common.{
  ◌≡◌, refl, subst, ℕ, false, Bool-cases, inl, inr, some, [], ◌∷◌, ◌++◌, ◌==◌, arith, All,
}
use t_cloud_public_csi_drive.Log.Redact.{Codes, strip}

module _ (mark : ℕ) (marks : Codes) (Cut : Codes → Codes → Type 0) where
  pub data Edited : Codes → Codes → Type 0 where
    done : Edited [] []
    keep : {s t : Codes} (c : ℕ) → Edited s t → Edited (c ∷ s) (c ∷ t)
    cut :
        {s t s' t' : Codes} (v : Codes)
        → s' ≡ v ++ s
        → t' ≡ mark ∷ marks ++ t
        → Cut v s
        → Edited s t
        → Edited s' t'

  pub Edited-refl : (s : Codes) → Edited s s
  Edited-refl [] = done
  Edited-refl (c ∷ s) = keep c (Edited-refl s)

  pub Edited-append : (x : Codes) {s t : Codes} → Edited s t → Edited (x ++ s) (x ++ t)
  Edited-append [] e = e
  Edited-append (c ∷ x) e = keep c (Edited-append x e)

  -- A text without the marker's first byte begins the edited text only if it begins the text.
  pub strip-Edited :
      (p : Codes) {s t : Codes} (left : Codes)
      → All (λ c. (c == mark) ≡ false) p
      → Edited s t
      → strip p t ≡ some left
      → (after : Codes) × (strip p s ≡ some after) × Edited after left
  unfolding strip
  strip-Edited [] {s} {t} left avoids e eq =
      (s, refl, subst (λ u. Edited s u) (let same : t ≡ left = cc in same) e)
  strip-Edited (x ∷ p) left avoids done eq = absurd (ground arith)
  strip-Edited (x ∷ p) left avoids (keep c e) eq = elim (Bool-cases (x == c)) [
    | inl same ↦ rw same (strip-Edited p left avoids.1 e (rw same at eq))
    | inr other ↦ absurd (ground arith)
  ]
  strip-Edited (x ∷ p) {s} {t} left avoids (cut v es et c e) eq = absurd (ground (arith, avoids.0))
