-- ===== src/Evs/Attachment/Detach.antt =====
-- internal/evs/attachment.go: `DetachVolume` and `finishDetachAfterEffectError`.
use t_cloud_public_csi_drive.Common.{
  String, Bool, true, false, not, Option, none, some, if◌then◌else◌,
}
use t_cloud_public_csi_drive.Eff.{Result, ok, err, pure, raise, attempt, ◌>>=◌, ◌>>◌}
use t_cloud_public_csi_drive.Errors.{invalid_argument, operation_failed, Err, only}
use t_cloud_public_csi_drive.Evs.Types.{Attachment}
use t_cloud_public_csi_drive.Evs.Classify.{classify_error, classify_error_kind}
use t_cloud_public_csi_drive.Evs.Cloud.{
  Cloud, Context, M, detach_request, request, with_timeout, ctx_err, fail_when, fail_classified,
  classified,
}
use t_cloud_public_csi_drive.Evs.Volume.{max_operation_timeout, is_transient}
use t_cloud_public_csi_drive.Evs.Attachment.{
  detach_keep_volume, detached, validate_attachment_input, job_id_of,
}
use t_cloud_public_csi_drive.Evs.Attachment.Attach.{is_invalid_argument}
use t_cloud_public_csi_drive.Evs.Attachment.Observe.{
  observe_attachment, wait_for_attachment_job, wait_for_attachment_state, detach_in_flight,
  reconcile_refused_detach, or_context,
}

-- `_, err = …`: the observation is dropped.
abbrev pub dropped : {A : Type 0} → M A → M (Unit {0})
dropped m = do m; pure tt

module _ (cloud : Cloud) (volume_id server_id : String) where
  unfoldable pub after_detach_probe : Context → Err → Result Err Bool → M (Unit {0})
  after_detach_probe ctx detach_err (err _) = raise (classify_error detach_err)
  after_detach_probe ctx detach_err (ok false) = raise (classify_error detach_err)
  after_detach_probe ctx detach_err (ok true) = do
    observed ← attempt (dropped (reconcile_refused_detach cloud ctx volume_id server_id))
    or_context cloud ctx (classify_error detach_err) observed

  -- A wait for the detached state.
  abbrev pub settle : Context → M (Unit {0})
  settle ctx = dropped (wait_for_attachment_state cloud ctx volume_id server_id detached)

  unfoldable pub finish_detach_after_effect_error : Context → Err → M (Unit {0})
  unfolding after_detach_probe
  finish_detach_after_effect_error ctx detach_err =
      let kind = classify_error_kind detach_err in
      if is_transient kind
      then (do
        observed ← attempt (settle ctx)
        or_context cloud ctx (classify_error detach_err) observed)
      else if not (is_invalid_argument kind)
      then raise (classify_error detach_err)
      else do
        moving ← attempt (detach_in_flight cloud ctx volume_id server_id)
        stopped ← ctx_err cloud ctx
        fail_classified stopped
        after_detach_probe ctx detach_err moving

  unfoldable pub after_detach_job : Context → Option String → M (Unit {0})
  after_detach_job ctx none = do
    observed ← attempt (settle ctx)
    or_context cloud ctx (only operation_failed) observed
  after_detach_job ctx (some job_id) = do
    waited ← attempt (wait_for_attachment_job cloud ctx job_id)
    classified waited
    observed ← attempt (settle ctx)
    classified observed

  unfoldable pub after_detach : Context → Result Err (Option String) → M (Unit {0})
  unfolding finish_detach_after_effect_error after_detach_job
  after_detach ctx (err e) = finish_detach_after_effect_error ctx e
  after_detach ctx (ok job) = after_detach_job ctx (job_id_of job)

  -- The rest of `DetachVolume`, from what is attached.
  unfoldable pub detach_from : Context → Option Attachment → M (Unit {0})
  unfolding after_detach
  detach_from ctx existing = if detached existing then pure tt else do
    answer ← attempt (
        request (detach_request server_id volume_id detach_keep_volume)
          (cloud.detach server_id volume_id detach_keep_volume))
    after_detach ctx answer

  unfoldable pub detach_volume : Context → M (Unit {0})
  unfolding detach_from
  detach_volume outer = do
    fail_when (not (validate_attachment_input volume_id server_id)) (only invalid_argument)
    ctx ← with_timeout outer max_operation_timeout
    observed ← attempt (observe_attachment cloud ctx volume_id server_id)
    existing ← classified observed
    detach_from ctx existing
