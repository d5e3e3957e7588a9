-- ===== src/Driver/Controller/Handlers.antt =====
-- internal/driver/controller.go: the handlers over the client of internal/evs, whatever the cloud answers.
use t_cloud_public_csi_drive.Common.{Bool, true, false, Option, none, some, String}
use t_cloud_public_csi_drive.Common.Int.{ℤ}
use t_cloud_public_csi_drive.Eff.{Result, ok, err}
use t_cloud_public_csi_drive.Errors.{Err}
use t_cloud_public_csi_drive.Evs.Types.{Attachment, CreateVolumeOpts, Volume}
use t_cloud_public_csi_drive.Evs.Cloud.{Cloud, Context}
use t_cloud_public_csi_drive.Evs.Cloud.Effects.{
  Spends, Spends-pure, Spends-raise, Spends-lift, Spends-attempt, Spends-bind, Spends-then,
  Spends-if,
}
use t_cloud_public_csi_drive.Evs.Effects.{
  get_volume-reads, create_volume-Spends, discover_volume-reads, delete_volume-Spends,
}
use t_cloud_public_csi_drive.Evs.Attachment.Effects.{attach_volume-Spends, detach_volume-Spends}
use t_cloud_public_csi_drive.Driver.Csi.{
  Code, CreateVolumeRequest, DeleteVolumeRequest, PublishRequest, UnpublishRequest, ValidateRequest,
}
use t_cloud_public_csi_drive.Driver.Controller.{
  refuse_when, check, mapped, after_discovery, validate_create, provision, create_volume,
  after_delete, delete_volume, publish_context, controller_publish_volume,
  controller_unpublish_volume, validate_volume_capabilities,
}
use t_cloud_public_csi_drive.Driver.Controller.Wiring.{evs_client}

Spends-refuse_when : (b : Bool) (code : Code) → Spends 0 (refuse_when b code)
Spends-refuse_when true code = Spends-raise code
Spends-refuse_when false code = Spends-pure tt

Spends-check : (o : Option Code) → Spends 0 (check o)
Spends-check none = Spends-pure tt
Spends-check (some code) = Spends-raise code

Spends-mapped : {A : Type 0} (code : Code) (r : Result Err A) → Spends 0 (mapped code r)
Spends-mapped code (ok a) = Spends-pure a
Spends-mapped code (err e) = Spends-raise _

ruleset refusal_rules = (
  Spends-pure, Spends-raise, Spends-lift, Spends-bind, Spends-refuse_when, Spends-check,
  Spends-mapped,
)

validate_create-reads : (req : CreateVolumeRequest) → Spends 0 (validate_create req)
unfolding validate_create
validate_create-reads req = search refusal_rules depth 20

publish_context-reads : (o : Option Attachment) → Spends 0 (publish_context o)
unfolding publish_context
publish_context-reads none = Spends-raise _
publish_context-reads (some a) = Spends-if _ _ _ (Spends-pure _) (Spends-raise _)

after_delete-reads : (r : Result Err (Unit {0})) → Spends 0 (after_delete r)
unfolding after_delete
after_delete-reads (ok _) = Spends-pure tt
after_delete-reads (err e) =
    Spends-if _ _ _ (Spends-pure tt) (Spends-if _ _ _ (Spends-raise _) (Spends-raise _))

module _ (cloud : Cloud) (ctx : Context) where
  after_discovery-Spends :
      (opts : CreateVolumeOpts) (r : Result Err Volume)
      → Spends 1 (after_discovery (evs_client cloud ctx) opts r)
  unfolding after_discovery
  after_discovery-Spends opts (ok v) = Spends-pure _
  after_discovery-Spends opts (err e) =
      Spends-if _ _ _
        (Spends-then (Spends-attempt (create_volume-Spends cloud ctx opts))
          (λ r. Spends-bind (Spends-mapped _ r) (λ v. Spends-pure _)))
        (Spends-raise _)

  provision-Spends :
      (req : CreateVolumeRequest) (vol_type zone : String) (size : ℤ)
      → Spends 1 (provision (evs_client cloud ctx) req vol_type zone size)
  unfolding provision
  provision-Spends req vol_type zone size =
      Spends-bind (Spends-attempt (discover_volume-reads cloud ctx _))
        (λ r. after_discovery-Spends _ r)

  -- `CreateVolume` of the controller makes at most one request that changes the cloud, for any request
  -- and whatever the cloud answers to the validation, the discovery and the creation.
  pub create_handler-Spends :
      (request : Option CreateVolumeRequest)
      → Spends 1 (create_volume (evs_client cloud ctx) request)
  unfolding create_volume
  create_handler-Spends none = Spends-raise _
  create_handler-Spends (some req) =
      Spends-bind (validate_create-reads req)
        (λ (vol_type, zone, size). provision-Spends req vol_type zone size)

  delete_handler-Spends :
      (request : Option DeleteVolumeRequest)
      → Spends 1 (delete_volume (evs_client cloud ctx) request)
  unfolding delete_volume
  delete_handler-Spends none = Spends-raise _
  delete_handler-Spends (some req) = Spends-bind (Spends-refuse_when _ _) (λ _.
      Spends-then (Spends-attempt (delete_volume-Spends cloud ctx req.volume_id))
        after_delete-reads)

  publish-Spends :
      (request : Option PublishRequest)
      → Spends 1 (controller_publish_volume (evs_client cloud ctx) request)
  unfolding controller_publish_volume
  publish-Spends none = Spends-raise _
  publish-Spends (some req) = Spends-bind (Spends-refuse_when _ _) (λ _.
      Spends-bind (Spends-refuse_when _ _) (λ _. Spends-bind (Spends-check _) (λ _.
        Spends-bind (Spends-refuse_when _ _) (λ _.
          Spends-then (Spends-attempt (attach_volume-Spends cloud req.volume_id req.node_id ctx))
            (λ r. Spends-bind (Spends-mapped _ r) publish_context-reads)))))

  unpublish-Spends :
      (request : Option UnpublishRequest)
      → Spends 1 (controller_unpublish_volume (evs_client cloud ctx) request)
  unfolding controller_unpublish_volume
  unpublish-Spends none = Spends-raise _
  unpublish-Spends (some req) = Spends-bind (Spends-refuse_when _ _) (λ _.
      Spends-bind (Spends-refuse_when _ _) (λ _.
        Spends-then (Spends-attempt (detach_volume-Spends cloud req.volume_id req.node_id ctx))
          (λ r. Spends-mapped _ r)))

  validate_handler-reads :
      (request : Option ValidateRequest)
      → Spends 0 (validate_volume_capabilities (evs_client cloud ctx) request)
  unfolding validate_volume_capabilities
  validate_handler-reads none = Spends-raise _
  validate_handler-reads (some req) = Spends-bind (Spends-refuse_when _ _) (λ _.
      Spends-bind (Spends-refuse_when _ _) (λ _.
        Spends-bind (Spends-attempt (get_volume-reads cloud ctx req.volume_id))
          (λ r. Spends-bind (Spends-mapped _ r) (λ v. Spends-pure _))))

  -- Each of the other handlers makes at most one request that changes the cloud, however long it
  -- polls, and the validation of capabilities makes none.
  pub handlers-Spends :
      (deletion : Option DeleteVolumeRequest) (publish : Option PublishRequest)
      (unpublish : Option UnpublishRequest) (validation : Option ValidateRequest)
      → Spends 1 (delete_volume (evs_client cloud ctx) deletion)
        × Spends 1 (controller_publish_volume (evs_client cloud ctx) publish)
        × Spends 1 (controller_unpublish_volume (evs_client cloud ctx) unpublish)
        × Spends 0 (validate_volume_capabilities (evs_client cloud ctx) validation)
  handlers-Spends deletion publish unpublish validation = (
    delete_handler-Spends deletion,
    publish-Spends publish,
    unpublish-Spends unpublish,
    validate_handler-reads validation,
  )
