-- ===== src/Driver/Request/Codes.antt =====
-- internal/driver/controller.go: the gRPC code of a failure of the cloud.
use t_cloud_public_csi_drive.Common.{ℕ, ◌≡◌, ◌||◌, ◌∷◌, [], arith, if◌then◌else◌, ◌==◌}
use t_cloud_public_csi_drive.Errors.{
  http_default, errors_is, is_http_default, network_timeout, response_actual,
}
use t_cloud_public_csi_drive.Evs.Classify.{classify_error, classify_foreign}
use t_cloud_public_csi_drive.Driver.Csi.{
  Code, invalid_argument_code, not_found_code, permission_denied_code, internal_code,
  unavailable_code, unauthenticated_code,
}
use t_cloud_public_csi_drive.Driver.Request.{to_grpc_error}

-- The code for a status of the cloud's API that the SDK has an error type of its own for.
unfoldable pub code_of_status : Code → ℕ → Code
code_of_status conflict_code n =
    if n == 400
    then invalid_argument_code
    else if n == 401
    then unauthenticated_code
    else if n == 403
    then permission_denied_code
    else if n == 404
    then not_found_code
    else if n == 409
    then conflict_code
    else if (n == 408) || (n == 429) || (n == 500) || (n == 503)
    then unavailable_code
    else internal_code

-- An answer of the cloud's API with a status, and nothing else in the error, reaches the caller of the
-- driver as the code of that status, through the classification and the mapping to gRPC.
pub to_grpc_error-status :
    (conflict_code : Code) (n : ℕ)
    → to_grpc_error conflict_code (classify_error (http_default n ∷ []))
      ≡ code_of_status conflict_code n
unfolding to_grpc_error classify_error classify_foreign errors_is is_http_default network_timeout
    response_actual code_of_status
to_grpc_error-status conflict_code n = ground arith
