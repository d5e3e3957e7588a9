-- ===== src/Evs/Attachment/Effects.antt =====
-- internal/evs/attachment.go: an attach and a detach make at most one request that changes the cloud.
use t_cloud_public_csi_drive.Common.{String, Bool, true, false, Option, none, some}
use t_cloud_public_csi_drive.Eff.{Result, ok, err}
use t_cloud_public_csi_drive.Errors.{Err}
use t_cloud_public_csi_drive.Evs.Types.{Attachment}
use t_cloud_public_csi_drive.Evs.Cloud.{Cloud, Context}
use t_cloud_public_csi_drive.Evs.Cloud.Effects.{
  Spends, Spends-pure, Spends-raise, Spends-attempt, Spends-classified, Spends-request,
  Spends-weaken, Spends-bind, Spends-then, Spends-with_timeout, Spends-fail_when, Spends-if,
  reading_rules,
}
use t_cloud_public_csi_drive.Evs.Attachment.{
  RefusalProbeReading, probe_denied, probe_in_flight, probe_attached_elsewhere, job_id_of,
}
use t_cloud_public_csi_drive.Evs.Attachment.Observe.{
  observe_attachment, observe_state, observe_server_job, wait_for_attachment_state,
  wait_for_attachment_job, reconcile_refused_attach, reconcile_refused_detach, attach_in_flight,
  detach_in_flight, or_context,
}
use t_cloud_public_csi_drive.Evs.Attachment.Attach.{
  after_attach_probe, finish_attach_after_effect_error, settle_attach, after_attach_job,
  after_attach, attach_from, attach_volume,
}
use t_cloud_public_csi_drive.Evs.Attachment.Detach.{
  after_detach_probe, finish_detach_after_effect_error, after_detach_job, after_detach, detach_from,
  detach_volume,
}

module _ (cloud : Cloud) (ctx : Context) (volume_id server_id : String) where
  observe-reads : Spends 0 (observe_attachment cloud ctx volume_id server_id)
  unfolding observe_attachment
  observe-reads = search reading_rules depth 20

  state-reads :
      (settled : Option Attachment → Bool)
      → Spends 0 (wait_for_attachment_state cloud ctx volume_id server_id settled)
  unfolding wait_for_attachment_state observe_state
  state-reads settled = search (reading_rules, observe-reads) depth 20

  attach_in_flight-reads : Spends 0 (attach_in_flight cloud ctx volume_id server_id)
  unfolding attach_in_flight
  attach_in_flight-reads = search reading_rules depth 20

  detach_in_flight-reads : Spends 0 (detach_in_flight cloud ctx volume_id server_id)
  unfolding detach_in_flight
  detach_in_flight-reads = search reading_rules depth 20

module _ (cloud : Cloud) (ctx : Context) where
  job-reads : (id : String) → Spends 0 (wait_for_attachment_job cloud ctx id)
  unfolding wait_for_attachment_job observe_server_job
  job-reads id = search reading_rules depth 20

  or_context-reads : {A : Type 0} (e : Err) (r : Result Err A) → Spends 0 (or_context cloud ctx e r)
  unfolding or_context
  or_context-reads e (ok a) = Spends-pure a
  or_context-reads e (err _) = search reading_rules depth 20

ruleset waiting_rules = (
  reading_rules, observe-reads, state-reads, attach_in_flight-reads, detach_in_flight-reads,
  job-reads, or_context-reads,
)

module _ (cloud : Cloud) (volume_id server_id : String) where
  attach_probe-reads :
      (ctx : Context) (e : Err) (r : Result Err RefusalProbeReading)
      → Spends 0 (after_attach_probe cloud volume_id server_id ctx e r)
  unfolding after_attach_probe reconcile_refused_attach
  attach_probe-reads ctx e (err _) = Spends-raise _
  attach_probe-reads ctx e (ok probe_attached_elsewhere) = Spends-raise _
  attach_probe-reads ctx e (ok probe_denied) = Spends-raise _
  attach_probe-reads ctx e (ok probe_in_flight) = search waiting_rules depth 20

  finish_attach-reads :
      (ctx : Context) (e : Err)
      → Spends 0 (finish_attach_after_effect_error cloud volume_id server_id ctx e)
  unfolding finish_attach_after_effect_error
  finish_attach-reads ctx e = search (waiting_rules, attach_probe-reads) depth 20

  settle_attach-reads : (ctx : Context) → Spends 0 (settle_attach cloud volume_id server_id ctx)
  unfolding settle_attach
  settle_attach-reads ctx = search waiting_rules depth 20

  attach_job-reads :
      (ctx : Context) (o : Option String)
      → Spends 0 (after_attach_job cloud volume_id server_id ctx o)
  unfolding after_attach_job
  attach_job-reads ctx none = search waiting_rules depth 20
  attach_job-reads ctx (some id) = search waiting_rules depth 20

  after_attach-reads :
      (ctx : Context) (r : Result Err (Option String))
      → Spends 0 (after_attach cloud volume_id server_id ctx r)
  unfolding after_attach
  after_attach-reads ctx (err e) = finish_attach-reads ctx e
  after_attach-reads ctx (ok job) = attach_job-reads ctx (job_id_of job)

  attach_from-Spends :
      (ctx : Context) (o : Option Attachment)
      → Spends 1 (attach_from cloud volume_id server_id ctx o)
  unfolding attach_from
  attach_from-Spends ctx (some _) = Spends-weaken (settle_attach-reads ctx)
  attach_from-Spends ctx none =
      Spends-then (Spends-attempt (Spends-request _ _)) (after_attach-reads ctx)

  -- `AttachVolume` makes at most one request that changes the cloud: no path sends the attach again,
  -- whether it is refused, fails, or its job has no name.
  pub attach_volume-Spends :
      (ctx : Context) → Spends 1 (attach_volume cloud volume_id server_id ctx)
  unfolding attach_volume
  attach_volume-Spends outer = Spends-bind (Spends-fail_when _ _) (λ _.
      Spends-bind (Spends-with_timeout outer _) (λ ctx.
        Spends-bind (Spends-attempt (observe-reads cloud ctx volume_id server_id)) (λ r.
          Spends-bind (Spends-classified r)
            (λ o. Spends-if _ _ _ (Spends-pure o) (attach_from-Spends ctx o)))))

  detach_probe-reads :
      (ctx : Context) (e : Err) (r : Result Err Bool)
      → Spends 0 (after_detach_probe cloud volume_id server_id ctx e r)
  unfolding after_detach_probe reconcile_refused_detach
  detach_probe-reads ctx e (err _) = Spends-raise _
  detach_probe-reads ctx e (ok false) = Spends-raise _
  detach_probe-reads ctx e (ok true) = search waiting_rules depth 20

  finish_detach-reads :
      (ctx : Context) (e : Err)
      → Spends 0 (finish_detach_after_effect_error cloud volume_id server_id ctx e)
  unfolding finish_detach_after_effect_error
  finish_detach-reads ctx e = search (waiting_rules, detach_probe-reads) depth 20

  detach_job-reads :
      (ctx : Context) (o : Option String)
      → Spends 0 (after_detach_job cloud volume_id server_id ctx o)
  unfolding after_detach_job
  detach_job-reads ctx none = search waiting_rules depth 20
  detach_job-reads ctx (some id) = search waiting_rules depth 20

  after_detach-reads :
      (ctx : Context) (r : Result Err (Option String))
      → Spends 0 (after_detach cloud volume_id server_id ctx r)
  unfolding after_detach
  after_detach-reads ctx (err e) = finish_detach-reads ctx e
  after_detach-reads ctx (ok job) = detach_job-reads ctx (job_id_of job)

  detach_from-Spends :
      (ctx : Context) (o : Option Attachment)
      → Spends 1 (detach_from cloud volume_id server_id ctx o)
  unfolding detach_from
  detach_from-Spends ctx o =
      Spends-if _ _ _ (Spends-pure tt)
        (Spends-then (Spends-attempt (Spends-request _ _)) (after_detach-reads ctx))

  -- So does `DetachVolume`.
  pub detach_volume-Spends :
      (ctx : Context) → Spends 1 (detach_volume cloud volume_id server_id ctx)
  unfolding detach_volume
  detach_volume-Spends outer = Spends-bind (Spends-fail_when _ _) (λ _.
      Spends-bind (Spends-with_timeout outer _) (λ ctx.
        Spends-bind (Spends-attempt (observe-reads cloud ctx volume_id server_id))
          (λ r. Spends-bind (Spends-classified r) (λ o. detach_from-Spends ctx o))))
