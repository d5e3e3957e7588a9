-- ===== src/Evs/Sanitize.antt =====
-- internal/evs/client.go: `sanitizeError`. An error is here its text. The lengths that the source
-- compares are of bytes; those of the secrets, which are of ASCII, count the same.
pub mod Hidden
use t_cloud_public_csi_drive.Common.{
  ℕ, zero, suc, Bool, Option, none, some, List, [], ◌∷◌, ◌++◌, leb, length, keep, sort,
}
use t_cloud_public_csi_drive.Log.Redact.{Codes, codes, find_prefix, redact_string}

-- The secrets of `Config`.
pub record Secrets : Type 0 where
  pub access_key : Codes
  pub secret_key : Codes
  pub security_token : Codes

-- A `url.Error` around a refused redirect, with the text of the error in it, or any other error.
pub data Failure : Type 0 where
  refused : Codes → Failure
  failed : Codes → Failure

-- "[REDACTED]"
abbrev pub redacted : Codes
redacted = codes "[REDACTED]"

-- What a round of `strings.ReplaceAll` finds decides whether another one follows.
abbrev pub replace_round : Option (Codes × Codes) → Codes → (Codes → Codes) → Codes
replace_round none s later = s
replace_round (some (skipped, after)) s later = skipped ++ (redacted ++ later after)

-- `strings.ReplaceAll(s, secret, "[REDACTED]")`, for a secret that is not empty; a round for each byte
-- is enough.
unfoldable pub replace_loop : ℕ → Codes → Codes → Codes
unfolding find_prefix
replace_loop zero secret s = s
replace_loop (suc fuel) secret s = replace_round (find_prefix secret s) s (replace_loop fuel secret)

unfoldable pub replace_all : Codes → Codes → Codes
unfolding replace_loop
replace_all s secret = replace_loop (suc (length s)) secret s

abbrev pub is_given : Codes → Bool
is_given secret = leb 1 (length secret)

abbrev pub all_secrets : Secrets → List Codes
all_secrets cfg = cfg.access_key ∷ cfg.secret_key ∷ cfg.security_token ∷ []

-- The longer secret first.
abbrev pub longer_first : Codes → Codes → Bool
longer_first a b = leb (length b) (length a)

-- The loop over the secrets.
unfoldable pub replace_secrets : List Codes → Codes → Codes
unfolding replace_all
replace_secrets [] s = s
replace_secrets (secret ∷ secrets) s = replace_secrets secrets (replace_all s secret)

-- `sanitizeError`, for an error that is not nil.
unfoldable pub sanitize_error : Failure → Secrets → Codes
unfolding replace_secrets redact_string sort
sanitize_error (refused text) cfg = text
sanitize_error (failed text) cfg =
    redact_string (replace_secrets (sort longer_first (keep is_given (all_secrets cfg))) text)
