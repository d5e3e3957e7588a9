-- ===== src/Log/Search.antt =====
-- internal/log/logger.go: what `strings.Index` and the loops of `valueBounds` find.
use t_cloud_public_csi_drive.Common.{
  ◌≡◌, refl, ap, ℕ, ◌≤◌, Bool, false, true, not, Bool-cases, inl, inr, Option, none, some, [], ◌∷◌,
  ◌++◌, ◌==◌, arith, All, length,
}
use t_cloud_public_csi_drive.Log.Redact.{
  Codes, strip, find_prefix, match_or, run_of, after_run, in_value, is_token_delimiter,
  is_letter_or_digit, starts_name,
}
use t_cloud_public_csi_drive.Log.Edited.{Edited, Edited-append, strip-Edited}
use t_cloud_public_csi_drive.Log.Clean.{Ends, CleanFrom}

-- The prefix stands nowhere in the first text, where the second follows it.
abbrev pub Quiet : Codes → Codes → Codes → Type 0
Quiet prefix [] after = Unit
Quiet prefix (c ∷ s) after = (strip prefix (c ∷ s ++ after) ≡ none) × Quiet prefix s after

pub strip-eq-some : (p s : Codes) {after : Codes} → strip p s ≡ some after → s ≡ p ++ after
unfolding strip
strip-eq-some [] s eq = cc
strip-eq-some (x ∷ p) [] eq = absurd (ground arith)
strip-eq-some (x ∷ p) (c ∷ s) {after} eq = elim (Bool-cases (x == c)) [
  | inl same ↦
      let ih : s ≡ p ++ after = strip-eq-some p s (rw same at eq) in
      let heads : x ≡ c = ground arith in cc
  | inr other ↦ absurd (ground arith)
]

pub strip-append : (p s : Codes) → strip p (p ++ s) ≡ some s
unfolding strip
strip-append [] s = refl
strip-append (x ∷ p) s = ground (arith, strip-append p s)

pub find_prefix-none : (p s : Codes) (starts : Bool) → find_prefix p s ≡ none → CleanFrom p starts s
unfolding find_prefix
find_prefix-none p [] starts eq = tt
find_prefix-none p (c ∷ s) starts eq =
    go (strip p (c ∷ s)) refl (find_prefix p s) refl eq (find_prefix-none p s _)
  where
    go :
        (o : Option Codes)
        → strip p (c ∷ s) ≡ o
        → (later : Option (Codes × Codes)) → find_prefix p s ≡ later
        → match_or o c later ≡ none
        → (find_prefix p s ≡ none → CleanFrom p (not (is_letter_or_digit c)) s)
        → CleanFrom p starts (c ∷ s)
    go (some after) here later there e ih = absurd (ground arith)
    go none here none there e ih = ((λ _ after found. cc), ih there)
    go none here (some (skipped, after)) there e ih = absurd (ground arith)

-- Where the first match is: no match begins before it.
pub find_prefix-some :
    (p s skipped after : Codes)
    → find_prefix p s ≡ some (skipped, after)
    → (s ≡ skipped ++ (p ++ after)) × Quiet p skipped (p ++ after)
unfolding find_prefix
find_prefix-some p [] skipped after eq = absurd (ground arith)
find_prefix-some p (c ∷ s) skipped after eq =
    go (strip p (c ∷ s)) refl (find_prefix p s) refl skipped eq
      (λ more. find_prefix-some p s more after)
  where
    go :
        (o : Option Codes)
        → strip p (c ∷ s) ≡ o
        → (later : Option (Codes × Codes)) → find_prefix p s ≡ later
        → (skipped : Codes) → match_or o c later ≡ some (skipped, after)
        → ((more : Codes)
            → find_prefix p s ≡ some (more, after)
            → (s ≡ more ++ (p ++ after)) × Quiet p more (p ++ after))
        → (c ∷ s ≡ skipped ++ (p ++ after)) × Quiet p skipped (p ++ after)
    go (some left) here later there [] e ih =
        (let same : left ≡ after = ground arith in rw (strip-eq-some p (c ∷ s) here, same), tt)
    go (some left) here later there (d ∷ skipped) e ih = absurd (ground arith)
    go none here none there skipped e ih = absurd (ground arith)
    go none here (some (more, left)) there [] e ih = absurd (ground arith)
    go none here (some (more, left)) there (d ∷ skipped) e ih =
        let heads : c ≡ d = ground arith in
        let tails : more ≡ skipped = ground arith in
        let lefts : left ≡ after = ground arith in
        let (split, quiet) = ih skipped (rw (there, tails, lefts)) in
        let whole : c ∷ s ≡ d ∷ skipped ++ (p ++ after) = rw (heads, ← split) in
        (whole, (rw (← whole) here, quiet))

-- What is quiet stays so when parts behind it are cut.
pub Quiet-Edited :
    {mark : ℕ} {marks : Codes} {Cut : Codes → Codes → Type 0} (p x : Codes) {s t : Codes}
    → All (λ c. (c == mark) ≡ false) p
    → Edited mark marks Cut s t
    → Quiet p x s
    → Quiet p x t
Quiet-Edited p [] avoids e quiet = tt
Quiet-Edited p (c ∷ x) {s} {t} avoids e quiet =
    (go (strip p (c ∷ x ++ t)) refl, Quiet-Edited p x avoids e quiet.1)
  where
    go : (o : Option Codes) → strip p (c ∷ x ++ t) ≡ o → strip p (c ∷ x ++ t) ≡ none
    go none eq = eq
    go (some after) eq =
        let (left, at_s, edited) =
          strip-Edited _ _ _ p after avoids (Edited-append _ _ _ (c ∷ x) e) eq in
        absurd (let impossible : some left ≡ none = cc in ground arith)

-- Whether a name can start behind a text, by whether one could start before it.
abbrev pub flag_after : Bool → Codes → Bool
flag_after starts [] = starts
flag_after starts (c ∷ s) = flag_after (not (is_letter_or_digit c)) s

pub CleanFrom-Quiet :
    (p : Codes) (starts : Bool) (x s : Codes)
    → Quiet p x s
    → CleanFrom p (flag_after starts x) s
    → CleanFrom p starts (x ++ s)
CleanFrom-Quiet p starts [] s quiet clean = clean
CleanFrom-Quiet p starts (c ∷ x) s quiet clean = (
  (λ _ after eq. let none_there : strip p (c ∷ x ++ s) ≡ none = quiet.0 in cc),
  CleanFrom-Quiet p (not (is_letter_or_digit c)) x s quiet.1 clean,
)

starts_name-cons :
    (c : ℕ) (x : Codes) → starts_name (c ∷ x) ≡ flag_after (not (is_letter_or_digit c)) x
unfolding starts_name
starts_name-cons c [] = refl
starts_name-cons c (d ∷ x) = starts_name-cons d x

pub starts_name-append :
    (before x : Codes) → starts_name (before ++ x) ≡ flag_after (starts_name before) x
unfolding starts_name
starts_name-append [] [] = refl
starts_name-append [] (c ∷ x) = starts_name-cons c x
starts_name-append (c ∷ []) x = starts_name-cons c x
starts_name-append (c ∷ d ∷ s) x = starts_name-append (d ∷ s) x

module _ (test : ℕ → Bool) where
  pub run_of-append-after_run : (s : Codes) → run_of test s ++ after_run test s ≡ s
  unfolding run_of after_run
  run_of-append-after_run [] = refl
  run_of-append-after_run (c ∷ s) = elim (Bool-cases (test c)) [
    | inl t ↦ rw t (ap (λ u. c ∷ u) (run_of-append-after_run s))
    | inr f ↦ rw f
  ]

  pub length-after_run : (s : Codes) → length (after_run test s) ≤ length s
  unfolding after_run
  length-after_run [] = omega arith
  length-after_run (c ∷ s) = ground (arith, length-after_run s)

  pub All-run_of : (s : Codes) → All (λ c. test c ≡ true) (run_of test s)
  unfolding run_of
  All-run_of [] = tt
  All-run_of (c ∷ s) = elim (Bool-cases (test c)) [
    | inl t ↦ rw t (t, All-run_of s)
    | inr f ↦ rw f tt
  ]

  -- A beginning whose bytes all pass is skipped.
  pub after_run-append :
      (x s : Codes) → All (λ c. test c ≡ true) x → after_run test (x ++ s) ≡ after_run test s
  unfolding after_run
  after_run-append [] s all = refl
  after_run-append (c ∷ x) s all = rw all.0 (after_run-append x s all.1)

pub after_run-Ends : (s : Codes) → Ends (after_run in_value s)
unfolding after_run
after_run-Ends [] = tt
after_run-Ends (c ∷ s) = elim (Bool-cases (is_token_delimiter c)) [
  | inl d ↦ rw d d
  | inr n ↦ rw n (after_run-Ends s)
]
