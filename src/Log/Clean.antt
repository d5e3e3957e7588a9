-- ===== src/Log/Clean.antt =====
-- Texts in which no value follows a given key, and that masking the values of other keys keeps them so.
use t_cloud_public_csi_drive.Common.{
  ◌≡◌, refl, ℕ, Bool, true, false, not, Bool-cases, inl, inr, none, some, [], ◌∷◌, ◌++◌, ◌==◌,
  arith, All,
}
use t_cloud_public_csi_drive.Log.Redact.{
  Codes, mask, strip, is_letter_or_digit, is_quote_or_space, is_token_delimiter, run_of, after_run,
  in_value, value_of,
}
use t_cloud_public_csi_drive.Log.Edited.{Edited, done, keep, cut, strip-Edited}

-- Nothing, or what begins with a delimiter.
abbrev pub Ends : Codes → Type 0
Ends [] = Unit
Ends (c ∷ s) = is_token_delimiter c ≡ true

-- A whole value, not empty.
abbrev pub IsValue : Codes → Type 0
IsValue [] = ⊥
IsValue (c ∷ v) = All (λ b. is_token_delimiter b ≡ false) (c ∷ v)

abbrev pub Cut : Codes → Codes → Type 0
Cut v s = IsValue v × Ends s

abbrev pub Masked : Codes → Codes → Type 0
Masked = Edited b'*' (b'*' ∷ b'*' ∷ []) Cut

abbrev pub Stars : Codes → Type 0
Stars v = All (λ b. (b == b'*') ≡ true) v

-- No value follows the prefix where a name can start: at the beginning, if the flag says so, and
-- wherever no letter or digit stands before.
abbrev pub CleanFrom : Codes → Bool → Codes → Type 0
CleanFrom prefix starts [] = Unit
CleanFrom prefix starts (c ∷ s) =
    (starts ≡ true → (after : Codes) → strip prefix (c ∷ s) ≡ some after → Stars (value_of after))
    × CleanFrom prefix (not (is_letter_or_digit c)) s

pub Ends-Masked : {s t : Codes} → Masked s t → Ends s → Ends t
Ends-Masked done ends = tt
Ends-Masked (keep c e) ends = ends
Ends-Masked (cut [] es et c e) ends = absurd c.0
Ends-Masked {s} (cut (x ∷ v) es et c e) ends =
    let at_value : is_token_delimiter x ≡ true = rw es at ends in absurd (ground (arith, c.0.0))

run_of-Ends : (t : Codes) → Ends t → run_of in_value t ≡ []
unfolding run_of
run_of-Ends [] ends = refl
run_of-Ends (c ∷ t) ends = rw ends

pub run_of-mask : (t : Codes) → Ends t → Stars (run_of in_value (mask ++ t))
unfolding run_of is_token_delimiter
run_of-mask t ends = rw (run_of-Ends t ends) (refl, (refl, (refl, tt)))

run_of-Masked : {s t : Codes} → Masked s t → Stars (run_of in_value s) → Stars (run_of in_value t)
unfolding run_of
run_of-Masked done h = tt
run_of-Masked (keep c e) h = elim (Bool-cases (is_token_delimiter c)) [
  | inl d ↦ rw d tt
  | inr n ↦ let (star, more) = rw n at h in rw n (star, run_of-Masked e more)
]
run_of-Masked (cut v es et c e) h = rw et (run_of-mask _ (Ends-Masked e c.1))

pub value_of-Masked : {s t : Codes} → Masked s t → Stars (value_of s) → Stars (value_of t)
unfolding value_of after_run
value_of-Masked done h = tt
value_of-Masked (keep c e) h = elim (Bool-cases (is_quote_or_space c)) [
  | inl q ↦ rw q (value_of-Masked e (rw q at h))
  | inr n ↦ rw n (run_of-Masked (keep c e) (rw n at h))
]
value_of-Masked (cut v es et c e) h = rw et (run_of-mask _ (Ends-Masked e c.1))

-- A prefix that begins with a letter or digit and has no byte of the mark.
pub record IsKey (prefix : Codes) : Type 0 where
  pub head : ℕ
  pub rest : Codes
  pub shape : prefix ≡ head ∷ rest
  pub letter : is_letter_or_digit head ≡ true
  pub avoids : All (λ c. (c == b'*') ≡ false) prefix

-- It stands at no byte that ends a value or belongs to the mark.
pub strip-delimiter :
    {prefix : Codes} (c : ℕ) (s : Codes)
    → IsKey prefix
    → is_token_delimiter c ≡ true
    → strip prefix (c ∷ s) ≡ none
unfolding strip is_token_delimiter is_letter_or_digit
strip-delimiter c s k d = rw k.shape (ground (arith, k.letter))

pub strip-mark : {prefix : Codes} (s : Codes) → IsKey prefix → strip prefix (b'*' ∷ s) ≡ none
unfolding strip is_letter_or_digit
strip-mark s k = rw k.shape (ground (arith, k.letter))

module _ {prefix : Codes} (key : IsKey prefix) where
  CleanFrom-Ends :
      (starts : Bool) (t : Codes) → Ends t → CleanFrom prefix starts t → CleanFrom prefix true t
  CleanFrom-Ends starts [] ends clean = tt
  CleanFrom-Ends starts (c ∷ t) ends clean = (
    (λ _ after eq.
        let none_there : strip prefix (c ∷ t) ≡ none = strip-delimiter c t key ends in cc),
    clean.1,
  )

  CleanFrom-after :
      (v : Codes) (starts : Bool) (s : Codes)
      → CleanFrom prefix starts (v ++ s)
      → (starts' : Bool) × CleanFrom prefix starts' s
  CleanFrom-after [] starts s clean = (starts, clean)
  CleanFrom-after (c ∷ v) starts s clean = CleanFrom-after v _ s clean.1

  pub CleanFrom-mark :
      (starts : Bool) (t : Codes) → CleanFrom prefix true t → CleanFrom prefix starts (mask ++ t)
  unfolding is_letter_or_digit
  CleanFrom-mark starts t clean = (
    (λ _ after eq. let none_there : strip prefix (mask ++ t) ≡ none = strip-mark _ key in cc),
    (
      (λ _ after eq.
          let none_there : strip prefix (b'*' ∷ b'*' ∷ t) ≡ none = strip-mark _ key in cc),
      (
        (λ _ after eq. let none_there : strip prefix (b'*' ∷ t) ≡ none = strip-mark _ key in cc),
        clean,
      ),
    ),
  )

  -- Masking values keeps a text clean of the values of this key.
  pub CleanFrom-Masked :
      (starts : Bool) {s t : Codes}
      → Masked s t
      → CleanFrom prefix starts s
      → CleanFrom prefix starts t
  CleanFrom-Masked starts done clean = tt
  CleanFrom-Masked starts (keep c e) clean = (
    (λ begins after eq.
        let (left, at_s, edited) = strip-Edited _ _ _ prefix after key.avoids (keep c e) eq in
        value_of-Masked edited (clean.0 begins left at_s)),
    CleanFrom-Masked _ e clean.1,
  )
  CleanFrom-Masked starts (cut {s} {t} v es et c e) clean =
      let (starts', clean') = CleanFrom-after v starts s (rw es at clean) in
      rw et (
        CleanFrom-mark starts t
          (CleanFrom-Ends starts' t (Ends-Masked e c.1) (CleanFrom-Masked starts' e clean')))
