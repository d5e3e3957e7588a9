-- ===== src/Log/Redact.antt =====
-- internal/log/logger.go: `RedactString`. A text is here the list of its code points. The source walks
-- bytes; every byte that it compares with is of ASCII, and no byte of another code point is one.
use Prim.Native.Char.{code}
use t_cloud_public_csi_drive.Common.{
  ℕ, zero, suc, Bool, true, not, ◌&&◌, ◌||◌, Option, none, some, String, List, [], ◌∷◌, ◌++◌, ◌==◌,
  leb, if◌then◌else◌, length, take, drop,
}

abbrev pub Codes : Type 0
Codes = List ℕ

abbrev pub codes : String → Codes
codes String.[] = []
codes (String.◌∷◌ c s) = code c ∷ codes s

abbrev pub sensitive_keys : List Codes
sensitive_keys =
    codes "OS_ACCESS_KEY"
    ∷ codes "OS_SECRET_KEY"
    ∷ codes "OS_SECURITY_TOKEN"
    ∷ codes "Authorization"
    ∷ codes "authorization"
    ∷ codes "AK"
    ∷ codes "SK"
    ∷ []

abbrev pub sensitive_separators : List Codes
sensitive_separators = codes ": Bearer " ∷ codes ": Basic " ∷ codes "=" ∷ codes ":" ∷ []

-- "***"
abbrev pub mask : Codes
mask = b'*' ∷ b'*' ∷ b'*' ∷ []

unfoldable pub is_letter_or_digit : ℕ → Bool
is_letter_or_digit b =
    (leb b'a' b && leb b b'z') || (leb b'A' b && leb b b'Z') || (leb b'0' b && leb b b'9')

unfoldable pub is_quote_or_space : ℕ → Bool
is_quote_or_space b = (b == b' ') || (b == b'"') || (b == 39)

unfoldable pub is_token_delimiter : ℕ → Bool
is_token_delimiter b =
    (b == b' ')
    || (b == b'"')
    || (b == 39)
    || (b == b'}')
    || (b == b',')
    || (b == b';')
    || (b == 10)

-- What follows a prefix, if the text begins with it.
unfoldable pub strip : Codes → Codes → Option Codes
strip [] s = some s
strip (p ∷ prefix) [] = none
strip (p ∷ prefix) (c ∷ s) = let rest = strip prefix s in if p == c then rest else none

-- A match here, or else the one found later.
abbrev pub match_or : Option Codes → ℕ → Option (Codes × Codes) → Option (Codes × Codes)
match_or (some after) c later = some ([], after)
match_or none c none = none
match_or none c (some (skipped, after)) = some (c ∷ skipped, after)

-- `strings.Index(s, prefix)`, as the text before the first match and the text after it.
unfoldable pub find_prefix : Codes → Codes → Option (Codes × Codes)
unfolding strip
find_prefix prefix [] = none
find_prefix prefix (c ∷ s) = match_or (strip prefix (c ∷ s)) c (find_prefix prefix s)

-- The longest beginning of a text whose bytes pass a test, and what follows it: the loops of
-- `valueBounds`.
unfoldable pub run_of : (ℕ → Bool) → Codes → Codes
run_of test [] = []
run_of test (c ∷ s) = let rest = run_of test s in if test c then c ∷ rest else []

unfoldable pub after_run : (ℕ → Bool) → Codes → Codes
after_run test [] = []
after_run test (c ∷ s) = let rest = after_run test s in if test c then rest else c ∷ s

abbrev pub in_value : ℕ → Bool
in_value b = not (is_token_delimiter b)

-- `startsName(s, pos)`, for the text before `pos`: the test of its last byte.
unfoldable pub starts_name : Codes → Bool
starts_name [] = true
starts_name (c ∷ []) = not (is_letter_or_digit c)
starts_name (c ∷ d ∷ s) = starts_name (d ∷ s)

-- The value that follows a prefix, as `valueBounds` finds it.
unfoldable pub value_of : Codes → Codes
unfolding run_of after_run is_quote_or_space is_token_delimiter
value_of after = run_of in_value (after_run is_quote_or_space after)

-- One match of `maskKeyValues`, after the text before it: what is done up to the new `idx`, and what
-- is left.
abbrev pub mask_value : Codes → Codes → Codes → Codes × Codes
mask_value before after [] = (before, after)
mask_value before after (c ∷ value) = (
  before ++ run_of is_quote_or_space after ++ mask,
  after_run in_value (after_run is_quote_or_space after),
)

abbrev pub mask_match : Codes → Codes → Codes → Codes × Codes
mask_match before prefix after =
    if starts_name before
    then mask_value (before ++ prefix) after (value_of after)
    else (before ++ take 1 (prefix ++ after), drop 1 (prefix ++ after))

-- What a round of `maskKeyValues` finds decides whether another one follows.
abbrev pub mask_round :
    Option (Codes × Codes) → Codes → Codes → Codes → (Codes → Codes → Codes) → Codes
mask_round none prefix before rest later = before ++ rest
mask_round (some (skipped, after)) prefix before rest later =
    let (before', rest') = mask_match (before ++ skipped) prefix after in later before' rest'

-- The loop of `maskKeyValues`, on fuel: the text is the first part, up to `idx`, and the second.
unfoldable pub mask_loop : ℕ → Codes → Codes → Codes → Codes
unfolding find_prefix value_of starts_name is_letter_or_digit take drop
mask_loop zero prefix before rest = before ++ rest
mask_loop (suc fuel) prefix before rest =
    mask_round (find_prefix prefix rest) prefix before rest (mask_loop fuel prefix)

-- `maskKeyValues`. Each round goes forward, so a round for each byte is enough.
unfoldable pub mask_key_values : Codes → Codes → Codes
unfolding mask_loop
mask_key_values s prefix = mask_loop (suc (length s)) prefix [] s

-- The loop over the separators of one key, and that over the keys.
unfoldable pub mask_separators : Codes → List Codes → Codes → Codes
unfolding mask_key_values
mask_separators key [] s = s
mask_separators key (sep ∷ seps) s = mask_separators key seps (mask_key_values s (key ++ sep))

unfoldable pub mask_keys : List Codes → Codes → Codes
unfolding mask_separators
mask_keys [] s = s
mask_keys (key ∷ keys) s = mask_keys keys (mask_separators key sensitive_separators s)

-- `RedactString`
unfoldable pub redact_string : Codes → Codes
unfolding mask_keys
redact_string [] = []
redact_string (c ∷ s) = mask_keys sensitive_keys (c ∷ s)
