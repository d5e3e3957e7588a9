-- ===== src/Driver/Node/Staging.antt =====
-- internal/driver/node.go over internal/mount/mount.go: when `NodeStageVolume` makes a filesystem.
use t_cloud_public_csi_drive.Common.{◌∷◌, ◌⊎◌, inl, inr, ◌≡◌, refl, false, some, String, index}
use t_cloud_public_csi_drive.Text.{trim_space}
use t_cloud_public_csi_drive.Eff.{Result, ok, err}
use t_cloud_public_csi_drive.Eff.Rules.{
  Any, Good, Yields, Yields-pure, Yields-raise, Yields-attempt, Yields-bind,
}
use t_cloud_public_csi_drive.Errors.{Err}
use t_cloud_public_csi_drive.Host.{HostCall, Host, HostContext, HostHistory}
use t_cloud_public_csi_drive.Mount.{LinuxMounter, contains}
use t_cloud_public_csi_drive.Mount.Filesystem.{get_filesystem_type}
use t_cloud_public_csi_drive.Mount.Quiet.{formats, quiet_rules}
use t_cloud_public_csi_drive.Mount.Made.{
  MadeAfter, MadeAfter-quiet, MadeAfter-given, MadeAfter-bind, MadeAfter-then, MadeAfter-attempt,
  MadeAfter-map,
}
use t_cloud_public_csi_drive.Mount.Formatting.{FormatsDevice, format_and_mount-MadeAfter}
use t_cloud_public_csi_drive.Mount.Identity.{IsDeviceOf, discover_device-IsDeviceOf}
use t_cloud_public_csi_drive.Driver.Csi.{
  Code, MountVolume, AccessType, no_access_type, block_access, mount_access, StageRequest,
}
use t_cloud_public_csi_drive.Driver.Capability.Admission.{IsServed, validate_volume_capability_iff}
use t_cloud_public_csi_drive.Driver.Controller.{device_path_key}
use t_cloud_public_csi_drive.Driver.Controller.Publication.{Yields-check, Yields-refuse_when}
use t_cloud_public_csi_drive.Driver.Node.{
  Files, discover_device as published_device, access_of, or_code, stage, node_stage_volume,
}
use t_cloud_public_csi_drive.Driver.Node.Quiet.{
  QuietFiles, Moves-refuse_when, Moves-check, or_code-quiet, make_directory-quiet, device-quiet,
}
use t_cloud_public_csi_drive.Driver.Node.Wiring.{linux_mounter}

pub Yields-or_code :
    {S A : Type 0} {P : A → Type 0} (code : Err → Code) (r : Result Err A)
    → Good P Any r
    → Yields {S = S} P Any (or_code code r)
unfolding or_code
Yields-or_code code (ok a) p = Yields-pure a p
Yields-or_code code (err e) p = Yields-raise (code e) tt

-- What is shown of the one command that makes a filesystem for a request: the request has a capability
-- that is served and asks for a mount that may write; the arguments of the command are flags and then a
-- device; and the device was shown to be the one of the volume, and the probes found no filesystem on it.
pub record Formatted (host : Host) (m : LinuxMounter) (ctx : HostContext) (req : StageRequest)
    (call : HostCall) : Type 0 where
  pub served : IsServed req.volume_capability
  pub asked : MountVolume
  pub by_mount : access_of req.volume_capability ≡ mount_access asked
  pub writable : contains asked.mount_flags "ro" ≡ false
  pub device : String
  pub of_volume :
      IsDeviceOf host m req.volume_id
        (trim_space (index req.publish_context device_path_key))
        device
  pub fs_type : String
  pub on_device : FormatsDevice fs_type device call
  pub moment : HostHistory
  pub empty : (get_filesystem_type host ctx device moment).0 ≡ ok ""

module _ (host : Host) (m : LinuxMounter) (ctx : HostContext) (files : Files HostHistory) where
  pub device-IsDeviceOf :
      (volume_id published : String)
      → Yields
          (IsDeviceOf host m volume_id (trim_space published))
          Any
          (published_device (linux_mounter host m ctx) files volume_id published)
  unfolding published_device
  device-IsDeviceOf volume_id published = Yields-bind (Yields-refuse_when _ _) (λ _ _.
      Yields-bind
        (Yields-attempt (discover_device-IsDeviceOf host m ctx volume_id (trim_space published)))
        (λ answer found. Yields-or_code _ answer found))

  module _ (quiet : QuietFiles files) (req : StageRequest) (served : IsServed req.volume_capability)
      (device : String)
      (of_volume : IsDeviceOf host m req.volume_id
        (trim_space (index req.publish_context device_path_key))
        device) where
    stage-MadeAfter :
        (access : AccessType)
        → access_of req.volume_capability ≡ access
        → MadeAfter
            (λ call _. Formatted host m ctx req call)
            (stage (linux_mounter host m ctx) files device req.staging_target_path access)
    unfolding stage
    stage-MadeAfter no_access_type e = MadeAfter-quiet (search quiet_rules depth 20)
    stage-MadeAfter block_access e = MadeAfter-quiet (make_directory-quiet host m ctx files quiet _)
    stage-MadeAfter (mount_access asked) e =
        MadeAfter-then
          (MadeAfter-attempt (
            MadeAfter-map
              (λ call h p. record {
                served = served;
                asked = asked;
                by_mount = e;
                writable = p.2;
                device = device;
                of_volume = of_volume;
                moment = h;
                empty = p.1;
                fs_type = _;
                on_device = p.0;
              })
              (format_and_mount-MadeAfter host ctx device req.staging_target_path _
                asked.mount_flags)))
          (λ answer. or_code-quiet _ answer)

  -- Whatever the host answers, where the calls of `os` run no command that makes a filesystem:
  -- `NodeStageVolume` runs no such command, or just one. Then the capability is served and the mount may
  -- write; the arguments of the command are flags and, last, a device; the links of the volume and the
  -- published path led to that device; and the probes of the host found no filesystem on it.
  pub node_stage-Formatted :
      QuietFiles files
      → (req : StageRequest) (h : HostHistory)
      → (formats (node_stage_volume (linux_mounter host m ctx) files (some req) h).1 ≡ formats h)
        ⊎ ((call : HostCall) × (formats
                (node_stage_volume (linux_mounter host m ctx) files (some req) h).1
              ≡ call ∷ formats h)
            × Formatted host m ctx req call)
  unfolding node_stage_volume
  node_stage-Formatted quiet req h = elim (made.outcome h) [
    | inl same ↦ inl same
    | inr one ↦ inr (one.call, one.one, one.reason)
  ]
    where
      made :
          MadeAfter
            (λ call _. Formatted host m ctx req call)
            (node_stage_volume (linux_mounter host m ctx) files (some req))
      made = MadeAfter-bind (Moves-refuse_when _ _) (λ _.
          MadeAfter-bind (Moves-refuse_when _ _) (λ _.
            MadeAfter-given (Moves-check _) (Yields-check _) (λ _ valid.
              MadeAfter-given (device-quiet host m ctx files _ _) (device-IsDeviceOf _ _)
                (λ device of_volume.
                  stage-MadeAfter quiet req
                    ((validate_volume_capability_iff req.volume_capability).0 valid) device
                    of_volume (access_of req.volume_capability) refl))))
