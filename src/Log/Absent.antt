-- ===== src/Log/Absent.antt =====
-- Words that a text does not have, and that cutting parts from it brings none in.
use mathlib.Core.List.{append_assoc}
use t_cloud_public_csi_drive.Common.{
  ◌≡◌, refl, ◌<◌, ℕ, false, Bool-cases, inl, inr, Option, none, some, [], ◌∷◌, ◌++◌, ◌==◌, arith,
  All, length,
}
use t_cloud_public_csi_drive.Log.Redact.{Codes, strip, find_prefix, match_or}
use t_cloud_public_csi_drive.Log.Edited.{Edited, done, keep, cut, strip-Edited}
use t_cloud_public_csi_drive.Log.Search.{Quiet, strip-append}

-- The word begins nowhere in the text.
abbrev pub Absent : Codes → Codes → Type 0
Absent w [] = Unit
Absent w (c ∷ s) = (strip w (c ∷ s) ≡ none) × Absent w s

pub Absent-Quiet : (w x s : Codes) → Quiet w x s → Absent w s → Absent w (x ++ s)
Absent-Quiet w [] s quiet absent = absent
Absent-Quiet w (c ∷ x) s quiet absent = (quiet.0, Absent-Quiet w x s quiet.1 absent)

Absent-after : (w x s : Codes) → Absent w (x ++ s) → Absent w s
Absent-after w [] s absent = absent
Absent-after w (c ∷ x) s absent = Absent-after w x s absent.1

-- An absent word is no part.
pub Absent-part : (c : ℕ) (w before after : Codes) → Absent (c ∷ w) (before ++ (c ∷ w ++ after)) → ⊥
Absent-part c w [] after absent =
    let found : strip (c ∷ w) (c ∷ w ++ after) ≡ some after = strip-append (c ∷ w) after in
    let nothing : some after ≡ none = cc in ground arith
Absent-part c w (b ∷ before) after absent = Absent-part c w before after absent.1

-- A word that avoids the first byte of the marker, and begins nowhere in the marker.
pub record Clear (mark : ℕ) (marks w : Codes) : Type 0 where
  pub avoids : All (λ c. (c == mark) ≡ false) w
  pub quiet : (s : Codes) → Quiet w (mark ∷ marks) s

pub Absent-Edited :
    {mark : ℕ} {marks : Codes} {Cut : Codes → Codes → Type 0} (w : Codes) {s t : Codes}
    → Clear mark marks w
    → Edited mark marks Cut s t
    → Absent w s
    → Absent w t
Absent-Edited w clear done absent = tt
Absent-Edited w clear (keep {s} {t} c e) absent =
    (go (strip w (c ∷ t)) refl, Absent-Edited w clear e absent.1)
  where
    go : (o : Option Codes) → strip w (c ∷ t) ≡ o → strip w (c ∷ t) ≡ none
    go none eq = eq
    go (some after) eq =
        let (left, at_s, edited) = strip-Edited _ _ _ w after clear.avoids (keep c e) eq in
        absurd (let impossible : some left ≡ none = cc in ground arith)
Absent-Edited {mark} {marks} w clear (cut {s} {t} v es et c e) absent = rw et (
    Absent-Quiet w (mark ∷ marks) t (clear.quiet t)
      (Absent-Edited w clear e (Absent-after w v s (rw es at absent))))

pub find_prefix-Absent : (w s : Codes) → find_prefix w s ≡ none → Absent w s
unfolding find_prefix
find_prefix-Absent w [] eq = tt
find_prefix-Absent w (c ∷ s) eq =
    go (strip w (c ∷ s)) refl (find_prefix w s) refl eq (find_prefix-Absent w s)
  where
    go :
        (o : Option Codes)
        → strip w (c ∷ s) ≡ o
        → (later : Option (Codes × Codes)) → find_prefix w s ≡ later
        → match_or o c later ≡ none
        → (find_prefix w s ≡ none → Absent w s)
        → Absent w (c ∷ s)
    go (some after) here later there e ih = absurd (ground arith)
    go none here none there e ih = (here, ih there)
    go none here (some (skipped, after)) there e ih = absurd (ground arith)

-- A word longer than a text, without the byte that follows it there, does not begin there.
pub strip-closed :
    (b : ℕ) (w x s : Codes)
    → All (λ c. (c == b) ≡ false) w
    → length x < length w
    → strip w (x ++ (b ∷ s)) ≡ none
unfolding strip
strip-closed b [] x s avoids long = absurd (omega arith)
strip-closed b (a ∷ w) [] s avoids long = rw avoids.0
strip-closed b (a ∷ w) (c ∷ x) s avoids long = elim (Bool-cases (a == c)) [
  | inl same ↦ rw same (strip-closed b w x s avoids.1 (omega arith))
  | inr other ↦ rw other
]

pub Quiet-closed :
    (b : ℕ) (w x s : Codes)
    → All (λ c. (c == b) ≡ false) w
    → length x < length w
    → Quiet w (x ++ b ∷ []) s
Quiet-closed b w [] s avoids long = (strip-closed b w [] s avoids long, tt)
Quiet-closed b w (c ∷ x) s avoids long = (
  rw (append_assoc x (b ∷ []) s) (strip-closed b w (c ∷ x) s avoids long),
  Quiet-closed b w x s avoids (omega arith),
)
