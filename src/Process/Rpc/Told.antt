-- ===== src/Process/Rpc/Told.antt =====
-- cmd/t-cloud-csi-driver/logging.go: what the interceptor hands on, and what it logs of a call.
use t_cloud_public_csi_drive.Common.{
  ap, sym, ◌∙◌, String, str_eq, ◌≡◌, refl, ℕ, ◌-◌, Bool, true, false, Option, none, some, List, ◌∷◌,
  All, if◌then◌else◌,
}
use t_cloud_public_csi_drive.Eff.{Result, ok, err, Eff}
use t_cloud_public_csi_drive.Log.Redact.{Codes, codes, redact_string}
use t_cloud_public_csi_drive.Log.Level.{is_sensitive_key, Level, debug, warn, error}
use t_cloud_public_csi_drive.Log.Attr.{
  Value, text, other, Attrs, end, attr, Record, sanitizing, redact_record,
}
use t_cloud_public_csi_drive.Log.Output.{
  Redacted, Entry, RedactedEntry, recorder, record-RedactedEntry,
}
use t_cloud_public_csi_drive.Driver.Csi.{
  Code, canceled_code, invalid_argument_code, deadline_exceeded_code, not_found_code,
  already_exists_code, permission_denied_code, failed_precondition_code, aborted_code,
  out_of_range_code, internal_code, unavailable_code, unauthenticated_code,
}
use t_cloud_public_csi_drive.Process.Rpc.{Texts, level_for_code, code_of, served_record, intercept}

-- The codes of failures that the caller can mend.
abbrev is_mended_by_caller : Code → Bool
is_mended_by_caller invalid_argument_code = true
is_mended_by_caller not_found_code = true
is_mended_by_caller already_exists_code = true
is_mended_by_caller failed_precondition_code = true
is_mended_by_caller aborted_code = true
is_mended_by_caller canceled_code = true
is_mended_by_caller _ = false

-- How loud an outcome is logged.
abbrev pub severity : {A : Type 0} → Result Code A → Level
severity (ok a) = debug
severity (err c) = if is_mended_by_caller c then warn else error

-- The value of the first attribute of this name.
abbrev pub value_at : String → Attrs → Option Value
value_at key end = none
value_at key (attr name v rest) =
    let later = value_at key rest in if str_eq name key then some v else later

-- The text of the failure, if there is one.
abbrev pub failure : {A : Type 0} → Texts → Result Code A → Option Value
failure texts (ok a) = none
failure texts (err c) = some (text (redact_string (texts.error_text c)))

-- What a record says of a call: its message, how loud it is, its method, code and time, and the text of
-- its failure, all redacted.
pub record Tells (texts : Texts) (method : Codes) (took : ℕ) {A : Type 0} (r : Result Code A)
    (entry : Record) : Type 0 where
  pub message : entry.message ≡ redact_string (codes "Served RPC")
  pub level : entry.level ≡ severity r
  pub method_at : value_at "method" entry.attrs ≡ some (text (redact_string method))
  pub code_at :
      value_at "code" entry.attrs ≡ some (text (redact_string (texts.code_name (code_of r))))
  pub duration_at : value_at "duration_ms" entry.attrs ≡ some (other took)
  pub error_at : value_at "error" entry.attrs ≡ failure texts r

level_of_failure :
    (c : Code) → level_for_code (some c) ≡ (if is_mended_by_caller c then warn else error)
unfolding level_for_code
level_of_failure canceled_code = refl
level_of_failure invalid_argument_code = refl
level_of_failure deadline_exceeded_code = refl
level_of_failure not_found_code = refl
level_of_failure already_exists_code = refl
level_of_failure permission_denied_code = refl
level_of_failure failed_precondition_code = refl
level_of_failure aborted_code = refl
level_of_failure out_of_range_code = refl
level_of_failure internal_code = refl
level_of_failure unavailable_code = refl
level_of_failure unauthenticated_code = refl

level_for_code-severity : {A : Type 0} (r : Result Code A) → level_for_code (code_of r) ≡ severity r
unfolding level_for_code
level_for_code-severity (ok a) = refl
level_for_code-severity (err c) = level_of_failure c

served_record-Tells :
    {A : Type 0} (texts : Texts) (method : Codes) (took now place : ℕ) (r : Result Code A)
    → Tells texts method took r (redact_record (served_record texts method took now place r))
unfolding served_record redact_record is_sensitive_key level_for_code
served_record-Tells texts method took now place (ok a) = record {
  message = refl;
  level = refl;
  method_at = refl;
  code_at = refl;
  duration_at = refl;
  error_at = refl;
}
served_record-Tells texts method took now place (err c) = record {
  message = refl;
  level = level_of_failure c;
  method_at = refl;
  code_at = refl;
  duration_at = refl;
  error_at = refl;
}

-- What the interceptor adds to the output of the logger: a record that tells of the call, redacted, where
-- the logger is enabled for how loud that is.
pub data Logs (texts : Texts) (levels : Level → Bool) (bound : List Attrs) (method : Codes)
    (took : ℕ) {A : Type 0} (r : Result Code A) : List Entry → List Entry → Type 0 where
  skipped :
      {out : List Entry}
      → levels (severity r) ≡ false
      → Logs texts levels bound method took r out out
  logged :
      {out out' : List Entry} (entry : Record)
      → levels (severity r) ≡ true
      → out' ≡ (bound, entry) ∷ out
      → Tells texts method took r entry
      → RedactedEntry (bound, entry)
      → Logs texts levels bound method took r out out'

module _ {S A : Type 0} (texts : Texts) (levels : Level → Bool) (bound : List Attrs) (clock : S → ℕ)
    (place : ℕ) where
  -- The interceptor hands on what the handler does: its answer and its effect are those of the handler,
  -- which runs once. To the output of the driver's logger, whatever is bound to that, it adds one record,
  -- redacted, or none where the level is off. The record tells the method, the code, how long the
  -- handler took and, if it failed, the text of that; its level is that of errors, or of warnings for a
  -- failure that the caller can mend, or of debugging for a success.
  pub intercept-Logs :
      (method : Codes) (handler : Eff S Code A) (s : S) (out : List Entry)
      → All Redacted bound
      → let p =
          intercept texts
            (sanitizing (recorder levels))
            bound
            clock
            place
            method
            handler
            (s, out) in
        (p.0 ≡ (handler s).0)
        × (p.1.0 ≡ (handler s).1)
        × Logs texts levels bound method (clock (handler s).1 - clock s) (handler s).0 out p.1.1
  unfolding intercept sanitizing redact_record
  intercept-Logs method handler s out safe =
      (refl, refl, go (levels (level_for_code (code_of (handler s).0))) refl)
    where
      took : ℕ
      took = clock (handler s).1 - clock s

      entry : Record
      entry = served_record texts method took (clock (handler s).1) place (handler s).0

      go :
          (on : Bool)
          → levels (level_for_code (code_of (handler s).0)) ≡ on
          → Logs texts levels bound method took
              (handler s).0
              out
              (if on then (bound, redact_record entry) ∷ out else out)
      go true e =
          logged (redact_record entry) (ap levels (sym (level_for_code-severity (handler s).0)) ∙ e)
            refl (served_record-Tells texts method took (clock (handler s).1) place (handler s).0)
            (record-RedactedEntry bound entry safe)
      go false e = skipped (ap levels (sym (level_for_code-severity (handler s).0)) ∙ e)
