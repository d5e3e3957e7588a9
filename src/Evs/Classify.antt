-- ===== src/Evs/Classify.antt =====
-- internal/evs/client.go: `classifyErrorKind` and `classifyError`.
pub mod Kinds
use t_cloud_public_csi_drive.Common.{
  ℕ, Bool, true, false, ◌||◌, Option, none, some, List, [], ◌∷◌, ◌==◌, find, if◌then◌else◌,
}
use t_cloud_public_csi_drive.Errors.{
  Sentinel, not_found, conflict, invalid_argument, not_owned, unauthenticated, permission_denied,
  unavailable, operation_failed, canceled, deadline_exceeded, gateway_failure, redirect_refused,
  Err, errors_is, is_http_default, network_timeout, response_actual, only,
}

-- The sentinels of the loop, in its order.
abbrev domain_sentinels : List Sentinel
domain_sentinels =
    not_found ∷ conflict ∷ invalid_argument ∷ not_owned ∷ unauthenticated ∷ permission_denied
    ∷ unavailable ∷ operation_failed ∷ []

abbrev has_timed_out : Option Bool → Bool
has_timed_out (some true) = true
has_timed_out _ = false

abbrev is_gateway_code : Option ℕ → Bool
is_gateway_code (some n) = (n == 502) || (n == 504)
is_gateway_code none = false

-- The `switch` after the loop; a case that leaves it returns `ErrOperationFailed`.
unfoldable pub classify_foreign : Err → Sentinel
classify_foreign e =
    if errors_is e gateway_failure
    then unavailable
    else if errors_is e redirect_refused
    then operation_failed
    else if is_http_default e 400
    then invalid_argument
    else if is_http_default e 401
    then unauthenticated
    else if is_http_default e 403
    then permission_denied
    else if is_http_default e 404
    then not_found
    else if is_http_default e 409
    then conflict
    else if is_http_default e 408
        || is_http_default e 429
        || is_http_default e 500
        || is_http_default e 503
    then unavailable
    else if has_timed_out (network_timeout e)
    then unavailable
    else if is_gateway_code (response_actual e)
    then unavailable
    else operation_failed

abbrev or_else : Option Sentinel → Sentinel → Sentinel
or_else (some s) t = s
or_else none t = t

unfoldable pub classify_error_kind : Err → Sentinel
classify_error_kind e = or_else (find (errors_is e) domain_sentinels) (classify_foreign e)

unfoldable pub classify_error : Err → Err
unfolding classify_error_kind
classify_error e =
    if errors_is e canceled
    then only canceled
    else if errors_is e deadline_exceeded
    then only deadline_exceeded
    else only (classify_error_kind e)
