-- ===== src/Log/Masking.antt =====
-- internal/log/logger.go: `maskKeyValues` leaves no value of its key.
use mathlib.Core.List.{append_assoc}
use t_cloud_public_csi_drive.Common.{
  ◌≡◌, ◌≢◌, All-map, ◌∙◌, refl, ap, sym, subst, ℕ, zero, suc, ◌+◌, ◌<◌, Bool, true, false, not,
  Bool-cases, inl, inr, Option, none, some, [], ◌∷◌, ◌++◌, arith, All, length, length-append, take,
  drop,
}
use t_cloud_public_csi_drive.Log.Redact.{
  Codes, mask, strip, find_prefix, run_of, after_run, in_value, is_token_delimiter,
  is_quote_or_space, is_letter_or_digit, starts_name, value_of, mask_value, mask_round, mask_loop,
}
use t_cloud_public_csi_drive.Log.Edited.{Edited-refl, Edited-append, keep, cut}
use t_cloud_public_csi_drive.Log.Clean.{
  Ends, IsValue, Masked, CleanFrom, IsKey, Stars, Ends-Masked, run_of-mask, value_of-Masked,
  strip-delimiter, CleanFrom-mark,
}
use t_cloud_public_csi_drive.Log.Search.{
  Quiet, strip-append, find_prefix-none, find_prefix-some, Quiet-Edited, flag_after,
  CleanFrom-Quiet, starts_name-append, run_of-append-after_run, length-after_run, All-run_of,
  after_run-append, after_run-Ends,
}

flag_after-mask : (starts : Bool) (x : Codes) → flag_after starts (x ++ mask) ≡ true
unfolding is_letter_or_digit
flag_after-mask starts [] = refl
flag_after-mask starts (c ∷ x) = flag_after-mask (not (is_letter_or_digit c)) x

quote-delimits : (c : ℕ) → is_quote_or_space c ≡ true → is_token_delimiter c ≡ true
unfolding is_quote_or_space is_token_delimiter
quote-delimits c q = ground arith

-- No key stands in quotes and spaces.
CleanFrom-gap :
    {prefix : Codes} (key : IsKey prefix) (starts : Bool) (gap s : Codes)
    → All (λ c. is_quote_or_space c ≡ true) gap
    → ((b : Bool) → CleanFrom prefix b s)
    → CleanFrom prefix starts (gap ++ s)
CleanFrom-gap key starts [] s quotes clean = clean starts
CleanFrom-gap {prefix} key starts (c ∷ gap) s quotes clean = (
  (λ _ after eq.
      let none_there : strip prefix (c ∷ gap ++ s) ≡ none =
        strip-delimiter c (gap ++ s) key (quote-delimits c quotes.0) in
      cc),
  CleanFrom-gap key (not (is_letter_or_digit c)) gap s quotes.1 clean,
)

IsValue-of : (x : Codes) → All (λ c. in_value c ≡ true) x → x ≢ [] → IsValue x
IsValue-of [] all some_there = some_there refl
IsValue-of (c ∷ x) all some_there = All-map _ _ (c ∷ x) (λ b inside. ground arith) all

module _ (p0 : ℕ) (p : Codes) where
  -- What a run of the loop gives: the text that was done, and what was left with its values masked.
  pub record Leaves (before rest result : Codes) : Type 0 where
    pub out : Codes
    pub whole : result ≡ before ++ out
    pub edited : Masked rest out
    pub clean : CleanFrom (p0 ∷ p) (starts_name before) out

  module _ (key : IsKey (p0 ∷ p)) (apart : (s : Codes) → Quiet (p0 ∷ p) p s) where
    -- A round that emits a text in the place of a part of what is left.
    emit :
        (before skipped after x out rest result : Codes)
        → rest ≡ skipped ++ (p0 ∷ p ++ after)
        → Quiet (p0 ∷ p) skipped (p0 ∷ p ++ after)
        → result ≡ ((before ++ skipped) ++ x) ++ out
        → Masked (p0 ∷ p ++ after) (x ++ out)
        → CleanFrom (p0 ∷ p) (starts_name (before ++ skipped)) (x ++ out)
        → Leaves before rest result
    emit before skipped after x out rest result split quiet whole edited clean = record {
      out = skipped ++ (x ++ out);
      whole =
          whole ∙ append_assoc (before ++ skipped) x out ∙ append_assoc before skipped (x ++ out);
      edited = rw split (Edited-append _ _ _ skipped edited);
      clean =
          CleanFrom-Quiet (p0 ∷ p) (starts_name before) skipped (x ++ out)
            (Quiet-Edited (p0 ∷ p) skipped key.avoids edited quiet)
            (rw (← starts_name-append before skipped) clean);
    }

    -- The prefix ends a longer word: its first byte is passed over.
    pass :
        (before skipped after rest result : Codes)
        → rest ≡ skipped ++ (p0 ∷ p ++ after)
        → Quiet (p0 ∷ p) skipped (p0 ∷ p ++ after)
        → starts_name (before ++ skipped) ≡ false
        → Leaves ((before ++ skipped) ++ p0 ∷ []) (p ++ after) result
        → Leaves before rest result
    pass before skipped after rest result split quiet inside l =
        emit before skipped after (p0 ∷ []) l.out rest result split quiet l.whole (keep p0 l.edited)
          (
            (λ begins. absurd (ground arith)),
            rw (starts_name-append (before ++ skipped) (p0 ∷ [])) at l.clean,
          )

    -- Behind the prefix, the values that are in the text.
    behind :
        (begins : Bool) (x : Codes)
        → Stars (value_of x)
        → CleanFrom (p0 ∷ p) (flag_after (not (is_letter_or_digit p0)) p) x
        → CleanFrom (p0 ∷ p) begins (p0 ∷ p ++ x)
    behind begins x stars clean = (
      (λ _ after eq.
          let found : strip (p0 ∷ p) (p0 ∷ p ++ x) ≡ some x = strip-append (p0 ∷ p) x in
          let same : x ≡ after = (let e : some x ≡ some after = cc in ground arith) in
          subst (λ a. Stars (value_of a)) same stars),
      CleanFrom-Quiet (p0 ∷ p) _ p x (apart x) clean,
    )

    -- Nothing to mask follows.
    no_value :
        (before skipped after rest result : Codes)
        → rest ≡ skipped ++ (p0 ∷ p ++ after)
        → Quiet (p0 ∷ p) skipped (p0 ∷ p ++ after)
        → value_of after ≡ []
        → Leaves ((before ++ skipped) ++ p0 ∷ p) after result
        → Leaves before rest result
    no_value before skipped after rest result split quiet empty l =
        emit before skipped after (p0 ∷ p) l.out rest result split quiet l.whole
          (Edited-append _ _ _ (p0 ∷ p) l.edited)
          (behind _ l.out (value_of-Masked l.edited (rw empty tt))
            (rw (starts_name-append (before ++ skipped) (p0 ∷ p)) at l.clean))

    -- Behind the prefix and the gap, the mask.
    behind_gap :
        (begins : Bool) (gap out : Codes)
        → All (λ c. is_quote_or_space c ≡ true) gap
        → Ends out
        → CleanFrom (p0 ∷ p) true out
        → CleanFrom (p0 ∷ p) begins (p0 ∷ p ++ (gap ++ (mask ++ out)))
    unfolding value_of
    behind_gap begins gap out quotes ends clean =
        behind begins (gap ++ (mask ++ out))
          (rw (after_run-append is_quote_or_space gap (mask ++ out) quotes) (run_of-mask out ends))
          (CleanFrom-gap key _ gap (mask ++ out) quotes (λ b. CleanFrom-mark key b out clean))

    -- A value follows, behind quotes and spaces.
    a_value :
        (before skipped gap value left : Codes) (rest result : Codes)
        → All (λ c. is_quote_or_space c ≡ true) gap
        → IsValue value
        → Ends left
        → rest ≡ skipped ++ (p0 ∷ p ++ (gap ++ (value ++ left)))
        → Quiet (p0 ∷ p) skipped (p0 ∷ p ++ (gap ++ (value ++ left)))
        → Leaves ((before ++ skipped) ++ ((p0 ∷ p ++ gap) ++ mask)) left result
        → Leaves before rest result
    a_value before skipped gap value left rest result quotes is_value ends split quiet l =
        emit before skipped (gap ++ (value ++ left)) ((p0 ∷ p ++ gap) ++ mask) l.out rest result
          split quiet l.whole
          (rw joined (
            Edited-append _ _ _ (p0 ∷ p)
              (Edited-append _ _ _ gap (cut value refl refl (is_value, ends) l.edited))))
          (subst (CleanFrom (p0 ∷ p) (starts_name (before ++ skipped))) (sym joined)
            (behind_gap _ gap l.out quotes (Ends-Masked l.edited ends) after_mask))
      where
        joined : ((p0 ∷ p ++ gap) ++ mask) ++ l.out ≡ p0 ∷ p ++ (gap ++ (mask ++ l.out))
        joined = append_assoc (p0 ∷ p ++ gap) mask l.out ∙ append_assoc (p0 ∷ p) gap (mask ++ l.out)

        starts : starts_name ((before ++ skipped) ++ ((p0 ∷ p ++ gap) ++ mask)) ≡ true
        starts =
            starts_name-append (before ++ skipped) ((p0 ∷ p ++ gap) ++ mask)
            ∙ flag_after-mask (starts_name (before ++ skipped)) (p0 ∷ p ++ gap)

        after_mask : CleanFrom (p0 ∷ p) true l.out
        after_mask = subst (λ b. CleanFrom (p0 ∷ p) b l.out) starts l.clean

    -- The three ways that a match is gone on from.
    match-Leaves :
        (before skipped after rest : Codes) (later : Codes → Codes → Codes) (fuel : ℕ)
        → rest ≡ skipped ++ (p0 ∷ p ++ after)
        → Quiet (p0 ∷ p) skipped (p0 ∷ p ++ after)
        → length rest < suc fuel
        → ((b r : Codes) → length r < fuel → Leaves b r (later b r))
        → Leaves before rest (mask_round (some (skipped, after)) (p0 ∷ p) before rest later)
    unfolding take drop value_of
    match-Leaves before skipped after rest later fuel split quiet short ih =
        elim (Bool-cases (starts_name (before ++ skipped))) [
          | inr inside ↦ rw inside (
              pass before skipped after rest _ split quiet inside (
                ih ((before ++ skipped) ++ p0 ∷ []) (p ++ after)
                  (omega (arith, total, length-append p after))))
          | inl begins ↦ rw begins (go (value_of after) refl)
        ]
      where
        gap : Codes
        gap = run_of is_quote_or_space after

        body : Codes
        body = after_run is_quote_or_space after

        left : Codes
        left = after_run in_value body

        in_parts : after ≡ gap ++ (run_of in_value body ++ left)
        in_parts =
            sym (run_of-append-after_run is_quote_or_space after)
            ∙ ap (λ u. gap ++ u) (sym (run_of-append-after_run in_value body))

        done : Codes
        done = ((before ++ skipped) ++ p0 ∷ p) ++ gap ++ mask

        regrouped : done ≡ (before ++ skipped) ++ ((p0 ∷ p ++ gap) ++ mask)
        regrouped =
            ap (λ u. u ++ mask) (append_assoc (before ++ skipped) (p0 ∷ p) gap)
            ∙ append_assoc (before ++ skipped) (p0 ∷ p ++ gap) mask

        total : length rest ≡ length skipped + (suc (length p) + length after)
        total = rw (split, length-append skipped (p0 ∷ p ++ after), length-append (p0 ∷ p) after)

        go :
            (value : Codes)
            → value_of after ≡ value
            → Leaves before rest
                (let (b, r) = mask_value ((before ++ skipped) ++ p0 ∷ p) after value in later b r)
        go [] empty =
            no_value before skipped after rest _ split quiet empty
              (ih ((before ++ skipped) ++ p0 ∷ p) after (omega (arith, total)))
        go (v ∷ value) found =
            a_value before skipped gap (run_of in_value body) left rest _
              (All-run_of is_quote_or_space after)
              (IsValue-of (run_of in_value body) (All-run_of in_value body) (λ e. cc))
              (after_run-Ends body) (rw (in_parts) at split) (rw (in_parts) at quiet)
              (subst (λ b. Leaves b left (later done left)) regrouped
                (ih done left (
                  omega (
                    arith,
                    total,
                    length-after_run in_value body,
                    length-after_run is_quote_or_space after,
                  ))))

  -- Every round goes forward, so that fuel above the length of what is left is enough.
  pub mask_loop-Leaves :
      IsKey (p0 ∷ p)
      → ((s : Codes) → Quiet (p0 ∷ p) p s)
      → (fuel : ℕ) (before rest : Codes) → length rest < fuel
      → Leaves before rest (mask_loop fuel (p0 ∷ p) before rest)
  unfolding mask_loop
  mask_loop-Leaves key apart zero before rest short = absurd (omega arith)
  mask_loop-Leaves key apart (suc fuel) before rest short =
      go (find_prefix (p0 ∷ p) rest) refl (mask_loop-Leaves key apart fuel)
    where
      go :
          (o : Option (Codes × Codes))
          → find_prefix (p0 ∷ p) rest ≡ o
          → ((b r : Codes) → length r < fuel → Leaves b r (mask_loop fuel (p0 ∷ p) b r))
          → Leaves before rest (mask_round o (p0 ∷ p) before rest (mask_loop fuel (p0 ∷ p)))
      go none nowhere ih = record {
        out = rest;
        whole = refl;
        edited = Edited-refl _ _ _ rest;
        clean = find_prefix-none (p0 ∷ p) rest (starts_name before) nowhere;
      }
      go (some (skipped, after)) found ih =
          let (split, quiet) = find_prefix-some (p0 ∷ p) rest skipped after found in
          match-Leaves key apart before skipped after rest (mask_loop fuel (p0 ∷ p)) fuel split
            quiet short ih
