-- ===== src/Evs/Volume/Waits.antt =====
-- internal/evs/volume.go: the wait for a volume job ends.
use t_cloud_public_csi_drive.Common.{ℕ, String, ◌≡◌, ◌≤◌, arith}
use t_cloud_public_csi_drive.Eff.{ok}
use t_cloud_public_csi_drive.Eff.Rules.{Moves}
use t_cloud_public_csi_drive.Evs.Cloud.{Cloud, Context, timeout, History, actions}
use t_cloud_public_csi_drive.Evs.Cloud.Polling.{ticks, Later, Expires, Loop, poll_ends}
use t_cloud_public_csi_drive.Evs.Cloud.Later.{later_rules}
use t_cloud_public_csi_drive.Evs.Volume.{
  max_operation_timeout, poll_fuel, job_status_endpoint, observe_job, wait_for_job_success,
}

module _ (cloud : Cloud) where
  observe_job-Later :
      (ctx : Context) (path job_id : String) → Moves Later (observe_job cloud ctx path job_id)
  unfolding observe_job
  observe_job-Later ctx path job_id = search later_rules depth 12

  -- Where the endpoint of the volume service has the shape that the job endpoint is derived from, the
  -- wait for a volume job, under a context with a timeout of at most the operation's, ends by itself:
  -- its outcome is that of the loop without fuel.
  pub wait_for_job_success_ends :
      (outer : Context) (seconds : ℕ) (h0 h : History) (path job_id : String)
      → Expires cloud
      → seconds ≤ max_operation_timeout
      → ticks h0 ≤ ticks h
      → job_status_endpoint cloud.endpoint_path ≡ ok path
      → Loop cloud
          (timeout outer seconds h0)
          (observe_job cloud (timeout outer seconds h0) path job_id)
          h
          (wait_for_job_success cloud (timeout outer seconds h0) job_id h)
  unfolding wait_for_job_success actions
  wait_for_job_success_ends outer seconds h0 h path job_id expires short le derived = rw derived (
      poll_ends cloud outer seconds h0 expires
        (observe_job cloud (timeout outer seconds h0) path job_id)
        (observe_job-Later (timeout outer seconds h0) path job_id) poll_fuel h (omega arith)
        (omega arith))
