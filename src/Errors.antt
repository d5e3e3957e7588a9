-- ===== src/Errors.antt =====
-- Error values. An error is the list of the causes that `errors.Is` and `errors.As` find in it,
-- outermost first; its text is left out. The sentinels are those of internal/evs/client.go,
-- internal/evs/transport.go, internal/mount/mount.go, internal/config/config.go, `context`, `os`, `flag` and `grpc`.
use t_cloud_public_csi_drive.Common.{
  ℕ, ◌≡◌, refl, Bool, true, false, Option, none, some, List, [], ◌∷◌, ◌==◌, any,
}

pub data Sentinel : Type 0 where
  not_found conflict invalid_argument not_owned : Sentinel
  unauthenticated permission_denied unavailable operation_failed : Sentinel
  canceled deadline_exceeded : Sentinel
  gateway_failure redirect_refused : Sentinel
  invalid_input device_not_found device_identity_unverified : Sentinel
  unsupported_filesystem mount_failed unmount_failed : Sentinel
  filesystem_mismatch filesystem_format_failed filesystem_detection_failed : Sentinel
  not_exist : Sentinel
  help_requested version_requested server_stopped : Sentinel

-- Sentinels are compared by identity.
abbrev pub identity : Sentinel → ℕ
identity not_found = 0
identity conflict = 1
identity invalid_argument = 2
identity not_owned = 3
identity unauthenticated = 4
identity permission_denied = 5
identity unavailable = 6
identity operation_failed = 7
identity canceled = 8
identity deadline_exceeded = 9
identity gateway_failure = 10
identity redirect_refused = 11
identity invalid_input = 12
identity device_not_found = 13
identity device_identity_unverified = 14
identity unsupported_filesystem = 15
identity mount_failed = 16
identity unmount_failed = 17
identity filesystem_mismatch = 18
identity filesystem_format_failed = 19
identity filesystem_detection_failed = 20
identity not_exist = 21
identity help_requested = 22
identity version_requested = 23
identity server_stopped = 24

pub data Cause : Type 0 where
  sentinel : Sentinel → Cause
  -- the SDK's `ErrDefaultNNN` for the status NNN
  http_default : ℕ → Cause
  -- the SDK's `ErrUnexpectedResponseCode`, with its field `Actual`
  unexpected_response : ℕ → Cause
  -- a `net.Error`, with the answer of its `Timeout()`
  network : Bool → Cause
  -- an exit status of a host command
  exit_status : ℕ → Cause
  opaque : Cause
  -- of the model alone: a loop has used up its fuel
  starved : Cause

abbrev pub Err : Type 0
Err = List Cause

abbrev pub same : Sentinel → Cause → Bool
same s (sentinel t) = identity s == identity t
same s _ = false

-- `errors.Is(err, s)`
unfoldable pub errors_is : Err → Sentinel → Bool
errors_is e s = any (same s) e

abbrev is_default : ℕ → Cause → Bool
is_default n (http_default m) = n == m
is_default n _ = false

-- `errors.As(err, &v)` for `v` of the type `ErrDefaultNNN`
unfoldable pub is_http_default : Err → ℕ → Bool
is_http_default e n = any (is_default n) e

-- The first value that a reading of a cause gives.
abbrev pub first {ℓ} : {A : Type ℓ} → (Cause → Option A) → Err → Option A
first f [] = none
first f (c ∷ e) = let rest = first f e in elim (f c) [ none ↦ rest | some a ↦ some a ]

-- `context.DeadlineExceeded` is a `net.Error` that timed out.
abbrev timeout_of : Cause → Option Bool
timeout_of (network b) = some b
timeout_of (sentinel deadline_exceeded) = some true
timeout_of _ = none

-- `errors.As(err, &networkError)` for a `net.Error`, and then `networkError.Timeout()`
unfoldable pub network_timeout : Err → Option Bool
network_timeout e = first timeout_of e

abbrev response_of : Cause → Option ℕ
response_of (unexpected_response n) = some n
response_of _ = none

-- `errors.As(err, &responseError)`, and then `responseError.Actual`
unfoldable pub response_actual : Err → Option ℕ
response_actual e = first response_of e

abbrev exit_of : Cause → Option ℕ
exit_of (exit_status n) = some n
exit_of _ = none

-- `errors.As(err, &exitErr)`, and then `exitErr.ExitStatus()`
unfoldable pub exit_status_of : Err → Option ℕ
exit_status_of e = first exit_of e

-- `fmt.Errorf("…: %w", s)`, and an error that wraps nothing that the driver asks for.
abbrev pub only : Sentinel → Err
only s = sentinel s ∷ []

abbrev pub plain : Err
plain = opaque ∷ []

errors_is_test : errors_is (opaque ∷ sentinel conflict ∷ []) conflict ≡ true
unfolding errors_is
errors_is_test = refl
