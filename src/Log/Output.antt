-- ===== src/Log/Output.antt =====
-- internal/log/logger.go: what the handler behind the sanitizing one gets.
use t_cloud_public_csi_drive.Common.{
  ◌≡◌, Bool, true, false, String, List, ◌∷◌, ◌++◌, if◌then◌else◌, All, Memᴰ,
}
use t_cloud_public_csi_drive.Eff.{ok}
use t_cloud_public_csi_drive.Log.Redact.{
  Codes, mask, starts_name, value_of, redact_string, sensitive_keys, sensitive_separators,
}
use t_cloud_public_csi_drive.Log.Clean.{Stars}
use t_cloud_public_csi_drive.Log.Redaction.{redact_string-Stars}
use t_cloud_public_csi_drive.Log.Level.{Level, is_sensitive_key}
use t_cloud_public_csi_drive.Log.Attr.{
  Value, text, group, printed, deferred, other, Attrs, end, attr, redact_value, redact_attrs,
  Record, Handler, redact_record, sanitizing,
}

-- No value follows a sensitive key in the text.
pub record HasNoValues (s : Codes) : Type 0 where
  pub at :
      (key sep before after : Codes)
      → Memᴰ key sensitive_keys
      → Memᴰ sep sensitive_separators
      → s ≡ before ++ ((key ++ sep) ++ after)
      → starts_name before ≡ true
      → Stars (value_of after)

-- A sensitive attribute is the mask, and every other text has no values of sensitive keys.
unfoldable mutual
  pub RedactedValue : Value → Type 0
  RedactedValue (text s) = HasNoValues s
  RedactedValue (group attrs) = Redacted attrs
  RedactedValue (printed s) = ⊥
  RedactedValue (deferred v) = ⊥
  RedactedValue (other n) = Unit

  pub Redacted : Attrs → Type 0
  Redacted end = Unit
  Redacted (attr key v rest) =
      (is_sensitive_key key ≡ true → v ≡ text mask)
      × (is_sensitive_key key ≡ false → RedactedValue v)
      × Redacted rest

redact_string-HasNoValues : (s : Codes) → HasNoValues (redact_string s)
redact_string-HasNoValues s = record { at = redact_string-Stars s }

mutual
  unfolding RedactedValue redact_value

  redact_value-Redacted : (v : Value) → RedactedValue (redact_value v)
  redact_value-Redacted (text s) = redact_string-HasNoValues s
  redact_value-Redacted (group attrs) = redact_attrs-lem attrs
  redact_value-Redacted (printed s) = redact_string-HasNoValues s
  redact_value-Redacted (deferred v) = redact_value-Redacted v
  redact_value-Redacted (other n) = tt

  redact_attrs-lem : (attrs : Attrs) → Redacted (redact_attrs attrs)
  redact_attrs-lem end = tt
  redact_attrs-lem (attr key v rest) =
      (λ t. rw t, λ f. rw f (redact_value-Redacted v), redact_attrs-lem rest)

-- A handler that keeps what it gets of the levels that it is enabled for: the attributes bound to it,
-- and the records with these.
abbrev pub Entry : Type 0
Entry = List Attrs × Record

abbrev pub recorder : (Level → Bool) → Handler (List Entry) (List Attrs)
recorder levels = record {
  enabled = λ bound level. levels level;
  handle = λ bound r out. (ok tt, (bound, r) ∷ out);
  with_attrs = λ bound attrs. attrs ∷ bound;
  with_group = λ bound name. bound;
}

-- What a program does with a logger: it logs, or makes another logger and goes on with both.
pub data Use : Type 0 where
  stop : Use
  log : Record → Use → Use
  bind : Attrs → Use → Use → Use
  name : String → Use → Use → Use

module _ {S H : Type 0} (handler : Handler S H) where
  unfoldable pub run : H → Use → S → S
  run h stop out = out
  run h (log r rest) out =
      run h rest (if handler.enabled h r.level then (handler.handle h r out).1 else out)
  run h (bind attrs inner rest) out = run h rest (run (handler.with_attrs h attrs) inner out)
  run h (name opened inner rest) out = run h rest (run (handler.with_group h opened) inner out)

pub record RedactedEntry (e : Entry) : Type 0 where
  pub bound : All Redacted e.0
  pub message : HasNoValues e.1.message
  pub attrs : Redacted e.1.attrs

pub record-RedactedEntry :
    (bound : List Attrs) (r : Record) → All Redacted bound → RedactedEntry (bound, redact_record r)
unfolding redact_record
record-RedactedEntry bound r safe = record {
  bound = safe;
  message = redact_string-HasNoValues r.message;
  attrs = redact_attrs-lem r.attrs;
}

-- Whatever a program does with a logger over the sanitizing handler, the handler behind that gets only
-- records whose message has no value of a sensitive key, and only attributes, of the records and of
-- the loggers made from it, in which sensitive keys have the mask and no text has such a value.
pub run-RedactedEntry :
    (levels : Level → Bool) (bound : List Attrs) (use_of : Use) (out : List Entry)
    → All Redacted bound
    → All RedactedEntry out
    → All RedactedEntry (run (sanitizing (recorder levels)) bound use_of out)
unfolding run sanitizing redact_record
run-RedactedEntry levels bound stop out b o = o
run-RedactedEntry levels bound (log r rest) out b o =
    run-RedactedEntry levels bound rest _ b (logged (levels r.level))
  where
    logged : (on : Bool) → All RedactedEntry (if on then (bound, redact_record r) ∷ out else out)
    logged true = (record-RedactedEntry bound r b, o)
    logged false = o
run-RedactedEntry levels bound (bind attrs inner rest) out b o =
    run-RedactedEntry levels bound rest _ b (
      run-RedactedEntry levels (redact_attrs attrs ∷ bound) inner out (redact_attrs-lem attrs, b) o)
run-RedactedEntry levels bound (name opened inner rest) out b o =
    run-RedactedEntry levels bound rest _ b (run-RedactedEntry levels bound inner out b o)
