-- ===== src/Process/Rpc.antt =====
-- cmd/t-cloud-csi-driver/logging.go: the interceptor that logs each call. The names of the codes, the
-- texts of statuses and the clock are parameters.
pub mod Told
use t_cloud_public_csi_drive.Common.{
  ap, sym, ◌∙◌, String, str_eq, ◌≡◌, refl, ℕ, ◌-◌, Bool, true, false, Option, none, some, List, ◌∷◌,
  All, if◌then◌else◌,
}
use t_cloud_public_csi_drive.Eff.{Result, ok, err, Eff}
use t_cloud_public_csi_drive.Log.Redact.{Codes, codes, redact_string}
use t_cloud_public_csi_drive.Log.Level.{is_sensitive_key, Level, debug, warn, error}
use t_cloud_public_csi_drive.Log.Attr.{
  Value, text, printed, other, Attrs, end, attr, Record, Handler, sanitizing, redact_record,
}
use t_cloud_public_csi_drive.Log.Output.{
  Redacted, Entry, RedactedEntry, recorder, record-RedactedEntry,
}
use t_cloud_public_csi_drive.Driver.Csi.{
  Code, canceled_code, invalid_argument_code, deadline_exceeded_code, not_found_code,
  already_exists_code, permission_denied_code, failed_precondition_code, aborted_code,
  out_of_range_code, internal_code, unavailable_code, unauthenticated_code,
}

-- `levelForCode`; a call without an error has the code OK.
unfoldable pub level_for_code : Option Code → Level
level_for_code none = debug
level_for_code (some invalid_argument_code) = warn
level_for_code (some not_found_code) = warn
level_for_code (some already_exists_code) = warn
level_for_code (some failed_precondition_code) = warn
level_for_code (some aborted_code) = warn
level_for_code (some canceled_code) = warn
level_for_code (some deadline_exceeded_code) = error
level_for_code (some permission_denied_code) = error
level_for_code (some out_of_range_code) = error
level_for_code (some internal_code) = error
level_for_code (some unavailable_code) = error
level_for_code (some unauthenticated_code) = error

-- `status.Code(err)`
abbrev pub code_of : {A : Type 0} → Result Code A → Option Code
code_of (ok a) = none
code_of (err c) = some c

pub record Texts : Type 0 where
  pub code_name : Option Code → Codes
  pub error_text : Code → Codes

abbrev pub error_attr : {A : Type 0} → Texts → Result Code A → Attrs
error_attr texts (ok a) = end
error_attr texts (err c) = attr "error" (printed (texts.error_text c)) end

-- The record of a served call.
unfoldable pub served_record : {A : Type 0} → Texts → Codes → ℕ → ℕ → ℕ → Result Code A → Record
unfolding level_for_code
served_record texts method elapsed now place r = record {
  time = now;
  level = level_for_code (code_of r);
  message = codes "Served RPC";
  place = place;
  attrs = attr "method" (text method) (
      attr "code" (text (texts.code_name (code_of r)))
        (attr "duration_ms" (other elapsed) (error_attr texts r)));
}

-- `logger.LogAttrs`
abbrev pub log_attrs : {L H : Type 0} → Handler L H → H → Record → L → L
log_attrs logger h r out = if logger.enabled h r.level then (logger.handle h r out).1 else out

module _ {S L H A : Type 0} (texts : Texts) (logger : Handler L H) (h : H) (clock : S → ℕ)
    (place : ℕ) where
  -- `unaryLoggingInterceptor`, around a handler; the output of the logger is a part of the state. The
  -- subtraction of times stops at zero, as a clock does not go back.
  unfoldable pub intercept : Codes → Eff S Code A → Eff (S × L) Code A
  unfolding served_record
  intercept method handler (s, out) =
      let (r, s') = handler s in
      (
        r,
        (
          s',
          log_attrs logger h (served_record texts method (clock s' - clock s) (clock s') place r)
              out,
        ),
      )
