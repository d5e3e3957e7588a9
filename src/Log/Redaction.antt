-- ===== src/Log/Redaction.antt =====
-- internal/log/logger.go: `RedactString` leaves no value of any key.
use t_cloud_public_csi_drive.Common.{
  ◌≡◌, ◌∙◌, refl, ℕ, suc, Bool, true, false, not, ◌&&◌, ◌||◌, Bool-cases, inl, inr, none, List, [],
  ◌∷◌, ◌++◌, ◌==◌, arith, All, All-of, Memᴰ, length, subst, sym,
}
use t_cloud_public_csi_drive.Log.Redact.{
  Codes, strip, is_letter_or_digit, starts_name, value_of, mask_key_values, mask_separators,
  mask_keys, redact_string, sensitive_keys, sensitive_separators,
}
use t_cloud_public_csi_drive.Log.Clean.{Masked, CleanFrom, CleanFrom-Masked, IsKey, Stars}
use t_cloud_public_csi_drive.Log.Search.{Quiet, strip-append, flag_after, starts_name-append}
use t_cloud_public_csi_drive.Log.Masking.{Leaves, mask_loop-Leaves}

-- The first text is no beginning of the second, whatever follows that.
differs : Codes → Codes → Bool
differs [] s = false
differs (a ∷ p) [] = false
differs (a ∷ p) (b ∷ s) = not (a == b) || differs p s

differs_everywhere : Codes → Codes → Bool
unfolding differs
differs_everywhere p [] = true
differs_everywhere p (c ∷ s) = differs p (c ∷ s) && differs_everywhere p s

has_no_mark : Codes → Bool
has_no_mark [] = true
has_no_mark (c ∷ s) = not (c == b'*') && has_no_mark s

-- It begins with a letter or digit, has no byte of the mark, and does not overlap itself.
is_key : Codes → Bool
unfolding differs_everywhere has_no_mark is_letter_or_digit
is_key [] = false
is_key (c ∷ p) = is_letter_or_digit c && has_no_mark (c ∷ p) && differs_everywhere (c ∷ p) p

differs-strip : (p s after : Codes) → differs p s ≡ true → strip p (s ++ after) ≡ none
unfolding differs strip
differs-strip [] s after d = absurd (ground arith)
differs-strip (a ∷ p) [] after d = absurd (ground arith)
differs-strip (a ∷ p) (b ∷ s) after d = elim (Bool-cases (a == b)) [
  | inl same ↦ rw same (differs-strip p s after (rw same at d))
  | inr other ↦ rw other
]

differs_everywhere-Quiet : (p s after : Codes) → differs_everywhere p s ≡ true → Quiet p s after
unfolding differs_everywhere
differs_everywhere-Quiet p [] after d = tt
differs_everywhere-Quiet p (c ∷ s) after d = (
  differs-strip p (c ∷ s) after (ground arith),
  differs_everywhere-Quiet p s after (ground arith),
)

has_no_mark-All : (s : Codes) → has_no_mark s ≡ true → All (λ c. (c == b'*') ≡ false) s
unfolding has_no_mark
has_no_mark-All [] h = tt
has_no_mark-All (c ∷ s) h = (ground arith, has_no_mark-All s (ground arith))

is_key-IsKey : (c : ℕ) (p : Codes) → is_key (c ∷ p) ≡ true → IsKey (c ∷ p)
unfolding is_key
is_key-IsKey c p k = record {
  head = c;
  rest = p;
  shape = refl;
  letter = ground arith;
  avoids = has_no_mark-All (c ∷ p) (ground arith);
}

is_key-IsKey_of : (p : Codes) → is_key p ≡ true → IsKey p
is_key-IsKey_of [] k = absurd (unfold is_key in ground arith)
is_key-IsKey_of (c ∷ p) k = is_key-IsKey c p k

mask_key_values-Leaves :
    (c : ℕ) (p s : Codes) → is_key (c ∷ p) ≡ true → Leaves c p [] s (mask_key_values s (c ∷ p))
unfolding mask_key_values is_key
mask_key_values-Leaves c p s k =
    mask_loop-Leaves c p (is_key-IsKey c p k)
      (λ after. differs_everywhere-Quiet (c ∷ p) p after (ground arith)) (suc (length s)) [] s
      (omega arith)

-- `maskKeyValues` leaves no value of its key, and only replaces values.
mask_key_values-Clean :
    (p s : Codes)
    → is_key p ≡ true
    → Masked s (mask_key_values s p) × CleanFrom p true (mask_key_values s p)
unfolding starts_name
mask_key_values-Clean [] s k = absurd (unfold is_key in ground arith)
mask_key_values-Clean (c ∷ p) s k =
    let l = mask_key_values-Leaves c p s k in (rw l.whole l.edited, rw l.whole l.clean)

abbrev AreKeys : List Codes → Type 0
AreKeys keys = All (λ key. All (λ sep. is_key (key ++ sep) ≡ true) sensitive_separators) keys

sensitive_keys-AreKeys : AreKeys sensitive_keys
unfolding is_key
sensitive_keys-AreKeys = ground arith

-- What masking values keeps.
module _ (P : Codes → Type 0) (kept : (s t : Codes) → Masked s t → P s → P t) where
  mask_separators-keeps :
      (key : Codes) (seps : List Codes) (s : Codes)
      → All (λ sep. is_key (key ++ sep) ≡ true) seps
      → P s
      → P (mask_separators key seps s)
  unfolding mask_separators
  mask_separators-keeps key [] s all h = h
  mask_separators-keeps key (sep ∷ seps) s all h =
      mask_separators-keeps key seps (mask_key_values s (key ++ sep)) all.1
        (kept s _ (mask_key_values-Clean (key ++ sep) s all.0).0 h)

  mask_keys-keeps : (keys : List Codes) (s : Codes) → AreKeys keys → P s → P (mask_keys keys s)
  unfolding mask_keys
  mask_keys-keeps [] s all h = h
  mask_keys-keeps (key ∷ keys) s all h =
      mask_keys-keeps keys (mask_separators key sensitive_separators s) all.1
        (mask_separators-keeps key sensitive_separators s all.0 h)

  pub redact_string-keeps : (s : Codes) → P s → P (redact_string s)
  unfolding redact_string
  redact_string-keeps [] h = h
  redact_string-keeps (c ∷ s) h = mask_keys-keeps sensitive_keys (c ∷ s) sensitive_keys-AreKeys h

mask_separators-cleans :
    (key : Codes) (seps : List Codes) (sep s : Codes)
    → All (λ sep. is_key (key ++ sep) ≡ true) seps
    → Memᴰ sep seps
    → CleanFrom (key ++ sep) true (mask_separators key seps s)
unfolding mask_separators
mask_separators-cleans key [] sep' s all m = elim m [ ]
mask_separators-cleans key (sep ∷ seps) sep' s all (Memᴰ.head e) =
    subst
      (λ t. CleanFrom (key ++ t) true (mask_separators key seps (mask_key_values s (key ++ sep))))
      (sym e)
      (mask_separators-keeps (CleanFrom (key ++ sep) true)
        (λ s t. CleanFrom-Masked (is_key-IsKey_of (key ++ sep) all.0) true {s = s} {t = t}) key seps
        (mask_key_values s (key ++ sep)) all.1 (mask_key_values-Clean (key ++ sep) s all.0).1)
mask_separators-cleans key (sep ∷ seps) sep' s all (Memᴰ.tail m) =
    mask_separators-cleans key seps sep' (mask_key_values s (key ++ sep)) all.1 m

mask_keys-cleans :
    (keys : List Codes) (key sep s : Codes)
    → AreKeys keys
    → Memᴰ key keys
    → Memᴰ sep sensitive_separators
    → CleanFrom (key ++ sep) true (mask_keys keys s)
unfolding mask_keys
mask_keys-cleans [] key sep s all k m = elim k [ ]
mask_keys-cleans (first ∷ keys) key sep s all (Memᴰ.head e) m =
    subst
      (λ k.
        CleanFrom (k ++ sep) true (mask_keys keys (mask_separators first sensitive_separators s)))
      (sym e)
      (mask_keys-keeps (CleanFrom (first ++ sep) true)
        (λ s t.
          CleanFrom-Masked
            (is_key-IsKey_of (first ++ sep) (All-of (λ t. is_key (first ++ t) ≡ true) all.0 m)) true
            {s = s} {t = t})
        keys (mask_separators first sensitive_separators s) all.1
        (mask_separators-cleans first sensitive_separators sep s all.0 m))
mask_keys-cleans (first ∷ keys) key sep s all (Memᴰ.tail k) m =
    mask_keys-cleans keys key sep (mask_separators first sensitive_separators s) all.1 k m

CleanFrom-at :
    (p : Codes) (starts : Bool) (before s : Codes)
    → CleanFrom p starts (before ++ s)
    → CleanFrom p (flag_after starts before) s
CleanFrom-at p starts [] s clean = clean
CleanFrom-at p starts (c ∷ before) s clean =
    CleanFrom-at p (not (is_letter_or_digit c)) before s clean.1

CleanFrom-Stars :
    (p after : Codes) → is_key p ≡ true → CleanFrom p true (p ++ after) → Stars (value_of after)
CleanFrom-Stars [] after k clean = absurd (unfold is_key in ground arith)
CleanFrom-Stars (c ∷ p) after k clean = clean.0 refl after (strip-append (c ∷ p) after)

redact_string-cleans :
    (s key sep : Codes)
    → Memᴰ key sensitive_keys
    → Memᴰ sep sensitive_separators
    → CleanFrom (key ++ sep) true (redact_string s)
unfolding redact_string
redact_string-cleans [] key sep k m = tt
redact_string-cleans (c ∷ s) key sep k m =
    mask_keys-cleans sensitive_keys key sep (c ∷ s) sensitive_keys-AreKeys k m

-- What `RedactString` returns has, behind each sensitive key with one of the separators, where the key
-- ends no longer word, nothing for a value but asterisks. The value is what `valueBounds` finds: behind
-- spaces and quotes, up to a delimiter.
pub redact_string-Stars :
    (s key sep before after : Codes)
    → Memᴰ key sensitive_keys
    → Memᴰ sep sensitive_separators
    → redact_string s ≡ before ++ ((key ++ sep) ++ after)
    → starts_name before ≡ true
    → Stars (value_of after)
unfolding starts_name
redact_string-Stars s key sep before after k m split begins =
    CleanFrom-Stars (key ++ sep) after
      (All-of (λ t. is_key (key ++ t) ≡ true)
        (All-of (λ j. All (λ t. is_key (j ++ t) ≡ true) sensitive_separators) sensitive_keys-AreKeys
          k)
        m)
      (subst (λ b. CleanFrom (key ++ sep) b ((key ++ sep) ++ after)) at_start
        (CleanFrom-at (key ++ sep) true before ((key ++ sep) ++ after)
          (rw split at (redact_string-cleans s key sep k m))))
  where
    at_start : flag_after true before ≡ true
    at_start = sym (starts_name-append [] before) ∙ begins
