-- ===== src/Evs/Attachment/Observe.antt =====
-- internal/evs/attachment.go: `observeAttachment`, the two waits, the probes of the volume record and
-- the windows of reconciliation.
use t_cloud_public_csi_drive.Common.{String, Bool, Option}
use t_cloud_public_csi_drive.Eff.{Result, ok, err, pure, raise, lift, attempt, ◌>>=◌, ◌>>◌}
use t_cloud_public_csi_drive.Errors.{Err}
use t_cloud_public_csi_drive.Evs.Types.{Attachment}
use t_cloud_public_csi_drive.Evs.Cloud.{
  Cloud, Context, M, get_request, server_job_request, attachments_request, request, with_timeout,
  ctx_err, fail_if, fail_classified, Verdict, poll,
}
use t_cloud_public_csi_drive.Evs.Volume.{poll_fuel}
use t_cloud_public_csi_drive.Evs.Attachment.{
  refused_attach_reconcile_window, refused_detach_reconcile_window, attached_with_device, detached,
  listed_attachment, RefusalProbeReading, read_attach_probe, read_detach_probe, server_job_verdict,
  state_verdict,
}

module _ (cloud : Cloud) where
  unfoldable pub observe_attachment : Context → String → String → M (Option Attachment)
  observe_attachment ctx volume_id server_id = do
    stopped ← ctx_err cloud ctx
    fail_if stopped
    attachments ← request (attachments_request server_id) (cloud.attachments server_id)
    pure (listed_attachment volume_id server_id attachments)

  unfoldable pub observe_server_job : Context → String → M (Verdict (Unit {0}))
  observe_server_job ctx job_id = do
    stopped ← ctx_err cloud ctx
    fail_if stopped
    answer ← attempt (request (server_job_request job_id) (cloud.server_job job_id))
    lift (server_job_verdict answer)

  unfoldable pub wait_for_attachment_job : Context → String → M (Unit {0})
  wait_for_attachment_job ctx job_id = poll cloud ctx poll_fuel (observe_server_job ctx job_id)

  unfoldable pub observe_state :
      Context → String → String → (Option Attachment → Bool) → M (Verdict (Option Attachment))
  observe_state ctx volume_id server_id is_settled = do
    answer ← attempt (observe_attachment ctx volume_id server_id)
    lift (state_verdict is_settled answer)

  unfoldable pub wait_for_attachment_state :
      Context → String → String → (Option Attachment → Bool) → M (Option Attachment)
  wait_for_attachment_state ctx volume_id server_id is_settled =
      poll cloud ctx poll_fuel (observe_state ctx volume_id server_id is_settled)

  unfoldable pub attach_in_flight : Context → String → String → M RefusalProbeReading
  attach_in_flight ctx volume_id server_id = do
    stopped ← ctx_err cloud ctx
    fail_if stopped
    detail ← request (get_request volume_id) (cloud.get volume_id)
    pure (read_attach_probe server_id detail)

  unfoldable pub detach_in_flight : Context → String → String → M Bool
  detach_in_flight ctx volume_id server_id = do
    stopped ← ctx_err cloud ctx
    fail_if stopped
    detail ← request (get_request volume_id) (cloud.get volume_id)
    pure (read_detach_probe server_id detail)

  unfoldable pub reconcile_refused_attach : Context → String → String → M (Option Attachment)
  reconcile_refused_attach ctx volume_id server_id = do
    reconcile_ctx ← with_timeout ctx refused_attach_reconcile_window
    wait_for_attachment_state reconcile_ctx volume_id server_id attached_with_device

  unfoldable pub reconcile_refused_detach : Context → String → String → M (Option Attachment)
  reconcile_refused_detach ctx volume_id server_id = do
    reconcile_ctx ← with_timeout ctx refused_detach_reconcile_window
    wait_for_attachment_state reconcile_ctx volume_id server_id detached

  -- What follows a wait whose failure is not reported: an ended context, or else the given error.
  unfoldable pub or_context : {A : Type 0} → Context → Err → Result Err A → M A
  or_context ctx e (ok a) = pure a
  or_context ctx e (err _) = do stopped ← ctx_err cloud ctx; fail_classified stopped; raise e
