-- ===== src/Examples/Logs.antt =====
-- Tests of internal/log/logger.go, and of `sanitizeError` of internal/evs/client.go.
use t_cloud_public_csi_drive.Common.{◌≡◌, ◌≢◌, refl, true, All, [], ◌++◌, Memᴰ, arith}
use t_cloud_public_csi_drive.Log.Redact.{codes, mask, redact_string, starts_name, value_of}
use t_cloud_public_csi_drive.Log.Clean.{Stars}
use t_cloud_public_csi_drive.Log.Redaction.{redact_string-Stars}
use t_cloud_public_csi_drive.Log.Level.{info, warn, parse_level, is_sensitive_key}
use t_cloud_public_csi_drive.Log.Attr.{
  text, printed, deferred, end, attr, redact_attrs, Record, sanitizing,
}
use t_cloud_public_csi_drive.Log.Output.{
  RedactedEntry, recorder, Use, stop, log, bind, name, run, run-RedactedEntry,
}
use t_cloud_public_csi_drive.Evs.Sanitize.{Secrets, failed, sanitize_error}
use t_cloud_public_csi_drive.Evs.Sanitize.Hidden.{IsSecret, sanitize_error-hides}

redact_string_test : redact_string (codes "SK=,SK=x") ≡ codes "SK=,SK=***"
unfolding redact_string
redact_string_test = refl

redact_bearer_test :
    redact_string (codes "Authorization: Bearer abc, TASK: x MY_OS_SECRET_KEY=abc")
    ≡ codes "Authorization: *** ***, TASK: x MY_OS_SECRET_KEY=***"
unfolding redact_string
redact_bearer_test = refl

redact_key_test : redact_string (codes "AK=abc") ≡ [] ++ ((codes "AK" ++ codes "=") ++ codes "***")
unfolding redact_string
redact_key_test = refl

starts_test : starts_name [] ≡ true
unfolding starts_name
starts_test = refl

redact_string-Stars_example : Stars (value_of (codes "***"))
redact_string-Stars_example =
    redact_string-Stars (codes "AK=abc") (codes "AK") (codes "=") [] (codes "***")
      (Memᴰ.tail (Memᴰ.tail (Memᴰ.tail (Memᴰ.tail (Memᴰ.tail (Memᴰ.head refl))))))
      (Memᴰ.tail (Memᴰ.tail (Memᴰ.head refl))) redact_key_test starts_test

parse_level_test : parse_level " WARNING " ≡ warn
unfolding parse_level
parse_level_test = refl

sensitive_test : is_sensitive_key "my_os_secret_key" ≡ true
unfolding is_sensitive_key
sensitive_test = refl

redact_attrs_test :
    redact_attrs
      (attr "sk" (text (codes "x")) (attr "config" (deferred (printed (codes "AK:y"))) end))
    ≡ attr "sk" (text mask) (attr "config" (text (codes "AK:***")) end)
unfolding redact_attrs
redact_attrs_test = refl

abbrev sample_record : Record
sample_record = record {
  time = 1;
  level = info;
  message = codes "signed with SK=abc";
  place = 2;
  attrs = attr "AK" (text (codes "abc")) end;
}

abbrev sample_use : Use
sample_use =
    bind (attr "OS_SECRET_KEY" (text (codes "abc")) end)
      (name "cloud" (log sample_record stop) stop) (log sample_record stop)

run-RedactedEntry_example :
    All RedactedEntry (run (sanitizing (recorder (λ _. true))) [] sample_use [])
run-RedactedEntry_example = run-RedactedEntry (λ _. true) [] sample_use [] tt tt

abbrev sample_secrets : Secrets
sample_secrets = record {
  access_key = codes "AKIAIOSFODNN7";
  secret_key = codes "wJalrXUtnFEMI";
  security_token = [];
}

sanitize_error_test :
    sanitize_error (failed (codes "key AKIAIOSFODNN7 refused")) sample_secrets
    ≡ codes "key [REDACTED] refused"
unfolding sanitize_error
sanitize_error_test = refl

sample-IsSecret : IsSecret (codes "wJalrXUtnFEMI")
sample-IsSecret = record {
  long = omega arith;
  no_open = ground arith;
  no_close = ground arith;
  no_star = ground arith;
}

sanitize_error-hides_example :
    sanitize_error (failed (codes "key wJalrXUtnFEMI refused")) sample_secrets
    ≢ codes "key " ++ (codes "wJalrXUtnFEMI" ++ codes " refused")
sanitize_error-hides_example =
    sanitize_error-hides (codes "key wJalrXUtnFEMI refused") sample_secrets (codes "wJalrXUtnFEMI")
      (codes "key ") (codes " refused") (Memᴰ.tail (Memᴰ.head refl)) sample-IsSecret
