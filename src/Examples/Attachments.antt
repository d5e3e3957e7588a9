-- ===== src/Examples/Attachments.antt =====
-- Tests of internal/evs/attachment.go and of the polling loops.
use t_cloud_public_csi_drive.Common.{◌≡◌, refl, some, []}
use t_cloud_public_csi_drive.Text.{is_blank, trim_space}
use t_cloud_public_csi_drive.Eff.{ok}
use t_cloud_public_csi_drive.Eff.Rules.{Yields}
use t_cloud_public_csi_drive.Evs.Classify.Kinds.{IsReported}
use t_cloud_public_csi_drive.Evs.Cloud.{actions, poll, next_round, fail_when, caller}
use t_cloud_public_csi_drive.Evs.Cloud.Polling.{ticks}
use t_cloud_public_csi_drive.Evs.Attachment.{
  attached_with_device, validate_attachment_input, listed_attachment, match_attachment, job_id_of,
  server_job_verdict, state_verdict,
}
use t_cloud_public_csi_drive.Evs.Attachment.Observe.{
  observe_attachment, observe_state, observe_server_job, wait_for_attachment_state,
  wait_for_attachment_job,
}
use t_cloud_public_csi_drive.Evs.Attachment.Attach.{attach_volume}
use t_cloud_public_csi_drive.Evs.Attachment.Settled.{IsSettled, attach_volume-Settled}
use t_cloud_public_csi_drive.Examples.{timed_out, sample_cloud}

attach_volume-Settled_example :
    Yields
      (IsSettled "vol-1" "srv-1")
      IsReported
      (attach_volume sample_cloud "vol-1" "srv-1" caller)
attach_volume-Settled_example = attach_volume-Settled sample_cloud "vol-1" "srv-1" caller

-- To open this opens what a run of an attach computes.
unfoldable attach_run : Unit {0}
unfolding attach_volume actions fail_when validate_attachment_input is_blank observe_attachment
    timed_out attached_with_device listed_attachment job_id_of wait_for_attachment_job poll
    observe_server_job wait_for_attachment_state observe_state server_job_verdict state_verdict
    trim_space match_attachment ticks next_round
attach_run = tt

attach_volume_test :
    (attach_volume sample_cloud "vol-1" "srv-1" caller []).0
    ≡ ok (some (record { volume_id = "vol-1"; server_id = "srv-1"; device_name = "/dev/vdb" }))
unfolding attach_run
attach_volume_test = refl
