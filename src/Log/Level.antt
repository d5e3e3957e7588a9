-- ===== src/Log/Level.antt =====
-- internal/log/logger.go: `ParseLevel`, and which keys are sensitive.
use t_cloud_public_csi_drive.Common.{◌||◌, Bool, String, if◌then◌else◌, str_eq}
use t_cloud_public_csi_drive.Text.{trim_space, to_lower, to_upper, text_contains}

pub data Level : Type 0 where
  debug info warn error : Level

unfoldable pub parse_level : String → Level
unfolding trim_space to_lower
parse_level text =
    let level = to_lower (trim_space text) in
    if str_eq level "debug"
    then debug
    else if str_eq level "info"
    then info
    else if str_eq level "warn" || str_eq level "warning"
    then warn
    else if str_eq level "error"
    then error
    else info

unfoldable pub is_sensitive_key : String → Bool
unfolding trim_space to_upper text_contains
is_sensitive_key key =
    let k = to_upper (trim_space key) in
    str_eq k "AUTHORIZATION"
    || str_eq k "AK"
    || str_eq k "SK"
    || text_contains k "SECRET_KEY"
    || text_contains k "ACCESS_KEY"
    || text_contains k "SECURITY_TOKEN"
