-- ===== src/Evs/Attachment/Waits.antt =====
-- internal/evs/attachment.go: the waits end.
use t_cloud_public_csi_drive.Common.{ℕ, String, Bool, Option, ◌≤◌, arith}
use t_cloud_public_csi_drive.Eff.Rules.{Moves}
use t_cloud_public_csi_drive.Evs.Types.{Attachment}
use t_cloud_public_csi_drive.Evs.Cloud.{Cloud, Context, timeout, History}
use t_cloud_public_csi_drive.Evs.Cloud.Polling.{ticks, Later, Expires, Loop, poll_ends}
use t_cloud_public_csi_drive.Evs.Cloud.Later.{later_rules}
use t_cloud_public_csi_drive.Evs.Volume.{max_operation_timeout, poll_fuel}
use t_cloud_public_csi_drive.Evs.Attachment.Observe.{
  observe_attachment, observe_server_job, wait_for_attachment_job, observe_state,
  wait_for_attachment_state,
}

module _ (cloud : Cloud) where
  observe_attachment-Later :
      (ctx : Context) (volume_id server_id : String)
      → Moves Later (observe_attachment cloud ctx volume_id server_id)
  unfolding observe_attachment
  observe_attachment-Later ctx volume_id server_id = search later_rules depth 12

  pub observe_state-Later :
      (ctx : Context) (volume_id server_id : String) (is_settled : Option Attachment → Bool)
      → Moves Later (observe_state cloud ctx volume_id server_id is_settled)
  unfolding observe_state
  observe_state-Later ctx volume_id server_id is_settled =
      search (later_rules, observe_attachment-Later) depth 12

  pub observe_server_job-Later :
      (ctx : Context) (job_id : String) → Moves Later (observe_server_job cloud ctx job_id)
  unfolding observe_server_job
  observe_server_job-Later ctx job_id = search later_rules depth 12

  -- Under a context with a timeout of at most the operation's, the wait for an attachment state ends
  -- by itself: its outcome is that of the loop without fuel.
  pub wait_for_attachment_state_ends :
      (outer : Context) (seconds : ℕ) (h0 h : History) (volume_id server_id : String)
      (is_settled : Option Attachment → Bool)
      → Expires cloud
      → seconds ≤ max_operation_timeout
      → ticks h0 ≤ ticks h
      → Loop cloud
          (timeout outer seconds h0)
          (observe_state cloud (timeout outer seconds h0) volume_id server_id is_settled)
          h
          (wait_for_attachment_state cloud
            (timeout outer seconds h0)
            volume_id
            server_id
            is_settled
            h)
  unfolding wait_for_attachment_state
  wait_for_attachment_state_ends outer seconds h0 h volume_id server_id is_settled expires short
        le =
      poll_ends cloud outer seconds h0 expires
        (observe_state cloud (timeout outer seconds h0) volume_id server_id is_settled)
        (observe_state-Later (timeout outer seconds h0) volume_id server_id is_settled) poll_fuel h
        (omega arith) (omega arith)

  -- So does the wait for a compute job.
  pub wait_for_attachment_job_ends :
      (outer : Context) (seconds : ℕ) (h0 h : History) (job_id : String)
      → Expires cloud
      → seconds ≤ max_operation_timeout
      → ticks h0 ≤ ticks h
      → Loop cloud
          (timeout outer seconds h0)
          (observe_server_job cloud (timeout outer seconds h0) job_id)
          h
          (wait_for_attachment_job cloud (timeout outer seconds h0) job_id h)
  unfolding wait_for_attachment_job
  wait_for_attachment_job_ends outer seconds h0 h job_id expires short le =
      poll_ends cloud outer seconds h0 expires
        (observe_server_job cloud (timeout outer seconds h0) job_id)
        (observe_server_job-Later (timeout outer seconds h0) job_id) poll_fuel h (omega arith)
        (omega arith)
