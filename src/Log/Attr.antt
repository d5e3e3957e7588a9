-- ===== src/Log/Attr.antt =====
-- internal/log/logger.go: attributes, records and the handler that redacts them.
use t_cloud_public_csi_drive.Common.{ℕ, Bool, String, if◌then◌else◌}
use t_cloud_public_csi_drive.Eff.{Eff}
use t_cloud_public_csi_drive.Errors.{Err}
use t_cloud_public_csi_drive.Log.Redact.{Codes, mask, redact_string}
use t_cloud_public_csi_drive.Log.Level.{Level, is_sensitive_key}

-- `slog.Value` and `slog.Attr`.
mutual
  pub data Value : Type 0 where
    -- a string
    text : Codes → Value
    group : Attrs → Value
    -- an error or a `fmt.Stringer`, with its text under `%v`
    printed : Codes → Value
    -- a `slog.LogValuer`, with the value that it stands for
    deferred : Value → Value
    -- a number, a time or any other value
    other : ℕ → Value

  pub data Attrs : Type 0 where
    end : Attrs
    attr : String → Value → Attrs → Attrs

-- `redactValue`, and `RedactAttr` on each attribute. A chain of `LogValuer`s is taken to be shorter
-- than the hundred that `Resolve` follows.
unfoldable mutual
  unfolding redact_string is_sensitive_key

  pub redact_value : Value → Value
  redact_value (text s) = text (redact_string s)
  redact_value (group attrs) = group (redact_attrs attrs)
  redact_value (printed s) = text (redact_string s)
  redact_value (deferred v) = redact_value v
  redact_value (other n) = other n

  pub redact_attrs : Attrs → Attrs
  redact_attrs end = end
  redact_attrs (attr key v rest) =
      let redacted = redact_value v in
      attr key (if is_sensitive_key key then text mask else redacted) (redact_attrs rest)

-- `slog.Record`; its time and place are numbers.
pub record Record : Type 0 where
  pub time : ℕ
  pub level : Level
  pub message : Codes
  pub place : ℕ
  pub attrs : Attrs

-- `slog.Handler`, for handlers of a type and the state that output goes to.
pub record Handler (S H : Type 0) : Type 0 where
  pub enabled : H → Level → Bool
  pub handle : H → Record → Eff S Err (Unit {0})
  pub with_attrs : H → Attrs → H
  pub with_group : H → String → H

-- The record that `SanitizingHandler.Handle` passes on.
unfoldable pub redact_record : Record → Record
unfolding redact_value redact_attrs
redact_record r = record {
  time = r.time;
  level = r.level;
  message = redact_string r.message;
  place = r.place;
  attrs = redact_attrs r.attrs;
}

-- `NewSanitizingHandler` and the methods of `SanitizingHandler`, which holds the next handler.
unfoldable pub sanitizing : {S H : Type 0} → Handler S H → Handler S H
unfolding redact_record
sanitizing next = record {
  enabled = λ h level. next.enabled h level;
  handle = λ h r. next.handle h (redact_record r);
  with_attrs = λ h attrs. next.with_attrs h (redact_attrs attrs);
  with_group = λ h name. next.with_group h name;
}
