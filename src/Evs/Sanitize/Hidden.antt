-- ===== src/Evs/Sanitize/Hidden.antt =====
-- internal/evs/client.go: `sanitizeError` leaves no secret in the text of an error.
use t_cloud_public_csi_drive.Common.{
  ◌≡◌, ◌≢◌, refl, ℕ, zero, suc, ◌+◌, ◌<◌, true, false, Option, none, some, List, [], ◌∷◌, ◌++◌,
  ◌==◌, arith, All, All-of, All-of_keep, All-of_sort, Memᴰ, length, length-append, keep, sort,
}
use t_cloud_public_csi_drive.Log.Redact.{Codes, codes, strip, find_prefix}
use t_cloud_public_csi_drive.Log.Edited.{Edited, Edited-refl, Edited-append, cut}
use t_cloud_public_csi_drive.Log.Search.{find_prefix-some, Quiet-Edited}
use t_cloud_public_csi_drive.Log.Redaction.{redact_string-keeps}
use t_cloud_public_csi_drive.Log.Absent.{
  Absent, Absent-Quiet, Absent-part, Absent-Edited, Clear, find_prefix-Absent, Quiet-closed,
}
use t_cloud_public_csi_drive.Evs.Sanitize.{
  Secrets, failed, redacted, replace_round, replace_loop, replace_all, is_given, all_secrets,
  longer_first, replace_secrets, sanitize_error,
}

-- A secret that no marker can be part of: more than eight bytes, and none of `[`, `]` and `*`.
pub record IsSecret (w : Codes) : Type 0 where
  pub long : 8 < length w
  pub no_open : All (λ c. (c == b'[') ≡ false) w
  pub no_close : All (λ c. (c == b']') ≡ false) w
  pub no_star : All (λ c. (c == b'*') ≡ false) w

abbrev marks : Codes
marks = codes "REDACTED]"

abbrev Replaced : Codes → Codes → Type 0
Replaced = Edited b'[' marks (λ v s. Unit {0})

-- A word does not begin with a byte that it avoids.
strip-avoided :
    (b : ℕ) (w s : Codes) → 8 < length w → All (λ c. (c == b) ≡ false) w → strip w (b ∷ s) ≡ none
unfolding strip
strip-avoided b [] s long avoids = absurd (omega arith)
strip-avoided b (a ∷ w) s long avoids = rw avoids.0

redacted-Clear : (w : Codes) → IsSecret w → Clear b'[' marks w
redacted-Clear w h = record {
  avoids = h.no_open;
  quiet = λ s. (
    strip-avoided b'[' w _ h.long h.no_open,
    Quiet-closed b']' w (codes "REDACTED") s h.no_close h.long,
  );
}

mask-Clear : (w : Codes) → IsSecret w → Clear b'*' (b'*' ∷ b'*' ∷ []) w
mask-Clear w h = record {
  avoids = h.no_star;
  quiet = λ s. (
    strip-avoided b'*' w _ h.long h.no_star,
    (strip-avoided b'*' w _ h.long h.no_star, (strip-avoided b'*' w _ h.long h.no_star, tt)),
  );
}

replace_loop-Replaced : (fuel : ℕ) (w s : Codes) → Replaced s (replace_loop fuel w s)
unfolding replace_loop
replace_loop-Replaced zero w s = Edited-refl _ _ _ s
replace_loop-Replaced (suc fuel) w s = go (find_prefix w s) refl (replace_loop-Replaced fuel w)
  where
    go :
        (o : Option (Codes × Codes))
        → find_prefix w s ≡ o
        → ((r : Codes) → Replaced r (replace_loop fuel w r))
        → Replaced s (replace_round o s (replace_loop fuel w))
    go none nowhere ih = Edited-refl _ _ _ s
    go (some (skipped, after)) found ih =
        let (split, quiet) = find_prefix-some w s skipped after found in
        rw split (Edited-append _ _ _ skipped (cut w refl refl tt (ih after)))

-- Every round goes forward.
replace_loop-Absent :
    (fuel : ℕ) (w s : Codes) → IsSecret w → length s < fuel → Absent w (replace_loop fuel w s)
unfolding replace_loop
replace_loop-Absent zero w s h short = absurd (omega arith)
replace_loop-Absent (suc fuel) w s h short = go (find_prefix w s) refl (replace_loop-Absent fuel w)
  where
    go :
        (o : Option (Codes × Codes))
        → find_prefix w s ≡ o
        → ((r : Codes) → IsSecret w → length r < fuel → Absent w (replace_loop fuel w r))
        → Absent w (replace_round o s (replace_loop fuel w))
    go none nowhere ih = find_prefix-Absent w s nowhere
    go (some (skipped, after)) found ih =
        let (split, quiet) = find_prefix-some w s skipped after found in
        let total : length s ≡ length skipped + (length w + length after) =
          rw (split, length-append skipped (w ++ after), length-append w after) in
        let rest : Codes = replace_loop fuel w after in
        Absent-Quiet w skipped (redacted ++ rest)
          (Quiet-Edited w skipped h.no_open
            (cut w refl refl tt (replace_loop-Replaced fuel w after)) quiet)
          (Absent-Quiet w redacted rest ((redacted-Clear w h).quiet rest)
            (ih after h (omega (arith, total, h.long))))

-- Replacing another secret does not bring one in.
replace_secrets-keeps :
    (secrets : List Codes) (w s : Codes)
    → IsSecret w
    → Absent w s
    → Absent w (replace_secrets secrets s)
unfolding replace_secrets replace_all
replace_secrets-keeps [] w s h absent = absent
replace_secrets-keeps (v ∷ secrets) w s h absent =
    replace_secrets-keeps secrets w (replace_all s v) h
      (Absent-Edited w (redacted-Clear w h) (replace_loop-Replaced (suc (length s)) v s) absent)

replace_secrets-Absent :
    (secrets : List Codes) (s : Codes)
    → All (λ w. IsSecret w → Absent w (replace_secrets secrets s)) secrets
unfolding replace_secrets replace_all
replace_secrets-Absent [] s = tt
replace_secrets-Absent (w ∷ secrets) s = (
  λ h.
      replace_secrets-keeps secrets w (replace_all s w) h
        (replace_loop-Absent (suc (length s)) w s h (omega arith)),
  replace_secrets-Absent secrets (replace_all s w),
)

sanitize_error-Absent :
    (text : Codes) (cfg : Secrets) (w : Codes)
    → Memᴰ w (all_secrets cfg)
    → IsSecret w
    → Absent w (sanitize_error (failed text) cfg)
unfolding sanitize_error
sanitize_error-Absent text cfg w m h =
    redact_string-keeps (Absent w) (λ s t e. Absent-Edited w (mask-Clear w h) e)
      (replace_secrets secrets text) (replaced (ground (arith, h.long)) h)
  where
    secrets : List Codes
    secrets = sort longer_first (keep is_given (all_secrets cfg))

    Gone : Codes → Type 0
    Gone v = IsSecret v → Absent v (replace_secrets secrets text)

    replaced : is_given w ≡ true → Gone w
    replaced =
        All-of (λ v. is_given v ≡ true → Gone v)
          (All-of_keep Gone is_given (all_secrets cfg) (
            All-of_sort longer_first Gone (keep is_given (all_secrets cfg))
              (replace_secrets-Absent secrets text)))
          m

-- The text that `sanitizeError` makes of an error which is not a refused redirect has none of the
-- configured secrets as a part, for a secret of more than eight bytes without `[`, `]` and `*`, the
-- bytes of the markers.
pub sanitize_error-hides :
    (text : Codes) (cfg : Secrets) (w before after : Codes)
    → Memᴰ w (all_secrets cfg)
    → IsSecret w
    → sanitize_error (failed text) cfg ≢ before ++ (w ++ after)
sanitize_error-hides text cfg [] before after m h = absurd (omega (arith, h.long))
sanitize_error-hides text cfg (c ∷ w) before after m h =
    λ e. Absent-part c w before after (rw e at (sanitize_error-Absent text cfg (c ∷ w) m h))
