-- ===== src/Evs/Attachment/Attach.antt =====
-- internal/evs/attachment.go: `AttachVolume` and `finishAttachAfterEffectError`.
use t_cloud_public_csi_drive.Common.{
  String, Bool, true, false, not, Option, none, some, if◌then◌else◌,
}
use t_cloud_public_csi_drive.Eff.{Result, ok, err, pure, raise, attempt, ◌>>=◌, ◌>>◌}
use t_cloud_public_csi_drive.Errors.{
  Sentinel, conflict, invalid_argument, operation_failed, Err, only,
}
use t_cloud_public_csi_drive.Evs.Types.{Attachment}
use t_cloud_public_csi_drive.Evs.Classify.{classify_error, classify_error_kind}
use t_cloud_public_csi_drive.Evs.Cloud.{
  Cloud, Context, M, attach_request, request, with_timeout, ctx_err, fail_when, fail_classified,
  classified,
}
use t_cloud_public_csi_drive.Evs.Volume.{max_operation_timeout, is_transient}
use t_cloud_public_csi_drive.Evs.Attachment.{
  attached_with_device, validate_attachment_input, RefusalProbeReading, probe_denied,
  probe_in_flight, probe_attached_elsewhere, job_id_of,
}
use t_cloud_public_csi_drive.Evs.Attachment.Observe.{
  observe_attachment, wait_for_attachment_job, wait_for_attachment_state, attach_in_flight,
  reconcile_refused_attach, or_context,
}

abbrev pub is_invalid_argument : Sentinel → Bool
is_invalid_argument invalid_argument = true
is_invalid_argument _ = false

module _ (cloud : Cloud) (volume_id server_id : String) where
  unfoldable pub after_attach_probe :
      Context → Err → Result Err RefusalProbeReading → M (Option Attachment)
  after_attach_probe ctx attach_err (err _) = raise (classify_error attach_err)
  after_attach_probe ctx attach_err (ok probe_attached_elsewhere) = raise (only conflict)
  after_attach_probe ctx attach_err (ok probe_denied) = raise (classify_error attach_err)
  after_attach_probe ctx attach_err (ok probe_in_flight) = do
    observed ← attempt (reconcile_refused_attach cloud ctx volume_id server_id)
    or_context cloud ctx (classify_error attach_err) observed

  unfoldable pub finish_attach_after_effect_error : Context → Err → M (Option Attachment)
  unfolding after_attach_probe
  finish_attach_after_effect_error ctx attach_err =
      let kind = classify_error_kind attach_err in
      if is_transient kind
      then (do
        observed ←
            attempt (wait_for_attachment_state cloud ctx volume_id server_id attached_with_device)
        or_context cloud ctx (classify_error attach_err) observed)
      else if not (is_invalid_argument kind)
      then raise (classify_error attach_err)
      else do
        reading ← attempt (attach_in_flight cloud ctx volume_id server_id)
        stopped ← ctx_err cloud ctx
        fail_classified stopped
        after_attach_probe ctx attach_err reading

  -- The wait that ends with the settled attachment.
  unfoldable pub settle_attach : Context → M (Option Attachment)
  settle_attach ctx = do
    attached ←
        attempt (wait_for_attachment_state cloud ctx volume_id server_id attached_with_device)
    classified attached

  unfoldable pub after_attach_job : Context → Option String → M (Option Attachment)
  unfolding settle_attach
  after_attach_job ctx none = do
    attached ←
        attempt (wait_for_attachment_state cloud ctx volume_id server_id attached_with_device)
    or_context cloud ctx (only operation_failed) attached
  after_attach_job ctx (some job_id) = do
    waited ← attempt (wait_for_attachment_job cloud ctx job_id)
    classified waited
    settle_attach ctx

  unfoldable pub after_attach : Context → Result Err (Option String) → M (Option Attachment)
  unfolding finish_attach_after_effect_error after_attach_job
  after_attach ctx (err e) = finish_attach_after_effect_error ctx e
  after_attach ctx (ok job) = after_attach_job ctx (job_id_of job)

  -- The rest of `AttachVolume`, from what is attached already.
  unfoldable pub attach_from : Context → Option Attachment → M (Option Attachment)
  unfolding after_attach
  attach_from ctx (some _) = settle_attach ctx
  attach_from ctx none = do
    answer ←
        attempt (request (attach_request server_id volume_id) (cloud.attach server_id volume_id))
    after_attach ctx answer

  unfoldable pub attach_volume : Context → M (Option Attachment)
  unfolding attach_from
  attach_volume outer = do
    fail_when (not (validate_attachment_input volume_id server_id)) (only invalid_argument)
    ctx ← with_timeout outer max_operation_timeout
    observed ← attempt (observe_attachment cloud ctx volume_id server_id)
    existing ← classified observed
    if attached_with_device existing then pure existing else attach_from ctx existing
