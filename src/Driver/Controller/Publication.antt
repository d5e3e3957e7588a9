-- ===== src/Driver/Controller/Publication.antt =====
-- internal/driver/controller.go: what a successful `ControllerPublishVolume` gives to the node.
use t_cloud_public_csi_drive.Common.{
  ◌≡◌, refl, Bool, true, false, Option, none, some, ◌∷◌, [], Dict, Bool-cases, inl, inr,
}
use t_cloud_public_csi_drive.Eff.{Result, ok, err}
use t_cloud_public_csi_drive.Eff.Rules.{
  Good, Yields, Yields-bind, Yields-pure, Yields-raise, Yields-attempt,
}
use t_cloud_public_csi_drive.Errors.{Err}
use t_cloud_public_csi_drive.Evs.Types.{Attachment}
use t_cloud_public_csi_drive.Evs.Classify.Kinds.{IsReported}
use t_cloud_public_csi_drive.Evs.Cloud.{Cloud, Context}
use t_cloud_public_csi_drive.Evs.Cloud.Outcomes.{Any}
use t_cloud_public_csi_drive.Evs.Attachment.Settled.{IsSettled, attach_volume-Settled}
use t_cloud_public_csi_drive.Driver.Csi.{Code, PublishRequest}
use t_cloud_public_csi_drive.Driver.Capability.Admission.{IsServed, validate_volume_capability_iff}
use t_cloud_public_csi_drive.Driver.Request.{is_device_node_path}
use t_cloud_public_csi_drive.Driver.Request.Devices.{IsDevicePath, is_device_node_path-IsDevicePath}
use t_cloud_public_csi_drive.Driver.Controller.{
  device_path_key, refuse_when, check, mapped, publish_context, controller_publish_volume,
}
use t_cloud_public_csi_drive.Driver.Controller.Wiring.{evs_client}

-- The context of a publication: the device of an attachment of the volume to the node.
pub record IsPublished (req : PublishRequest) (d : Dict) : Type 0 where
  pub attachment : Attachment
  pub of_volume : attachment.volume_id ≡ req.volume_id
  pub of_node : attachment.server_id ≡ req.node_id
  pub device : IsDevicePath attachment.device_name
  pub context : d ≡ (device_path_key, attachment.device_name) ∷ []
  pub served : IsServed req.volume_capability
  pub writable : req.readonly ≡ false

pub Yields-check : {S : Type 0} (o : Option Code) → Yields {S = S} (λ _. o ≡ none) Any (check o)
Yields-check none = Yields-pure tt refl
Yields-check (some code) = Yields-raise code tt

pub Yields-refuse_when :
    {S : Type 0} (b : Bool) (code : Code) → Yields {S = S} (λ _. b ≡ false) Any (refuse_when b code)
Yields-refuse_when true code = Yields-raise code tt
Yields-refuse_when false code = Yields-pure tt refl

Yields-mapped :
    {S A : Type 0} {P : A → Type 0} (Q : Err → Type 0) (code : Code) (r : Result Err A)
    → Good P Q r
    → Yields {S = S} P Any (mapped code r)
Yields-mapped Q code (ok a) g = Yields-pure a g
Yields-mapped Q code (err e) g = Yields-raise _ tt

publish_context-IsPublished :
    {S : Type 0} (req : PublishRequest) (o : Option Attachment)
    → IsServed req.volume_capability
    → req.readonly ≡ false
    → IsSettled req.volume_id req.node_id o
    → Yields {S = S} (IsPublished req) Any (publish_context o)
unfolding publish_context
publish_context-IsPublished req none served writable s = absurd s
publish_context-IsPublished req (some a) served writable s =
    elim (Bool-cases (is_device_node_path a.device_name)) [
      | inl t ↦ rw t (
          Yields-pure _ (record {
            attachment = a;
            of_volume = s.0;
            of_node = s.1;
            device = is_device_node_path-IsDevicePath a.device_name t;
            context = refl;
            served = served;
            writable = writable;
          }))
      | inr f ↦ rw f (Yields-raise _ tt)
    ]

-- Whatever the cloud answers, a successful `ControllerPublishVolume` gives exactly one entry, the
-- device of an attachment of the requested volume to the requested node, and that device is a path below
-- `/dev/` each of whose names is neither empty nor `.` nor `..`; and it happens only for a capability that the driver serves and for a request
-- that is not read-only.
pub controller_publish-IsPublished :
    (cloud : Cloud) (ctx : Context) (req : PublishRequest)
    → Yields (IsPublished req) Any (controller_publish_volume (evs_client cloud ctx) (some req))
unfolding controller_publish_volume
controller_publish-IsPublished cloud ctx req = Yields-bind (Yields-refuse_when _ _) (λ _ _.
    Yields-bind (Yields-refuse_when _ _) (λ _ _. Yields-bind (Yields-check _) (λ _ valid.
      Yields-bind (Yields-refuse_when _ _) (λ _ writable.
        Yields-bind (Yields-attempt (attach_volume-Settled cloud req.volume_id req.node_id ctx))
          (λ r g. Yields-bind (Yields-mapped IsReported _ r g) (λ o s.
            publish_context-IsPublished req o
              ((validate_volume_capability_iff req.volume_capability).0 valid) writable s))))))
