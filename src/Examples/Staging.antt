-- ===== src/Examples/Staging.antt =====
-- Tests of the handlers of internal/driver/node.go over internal/mount/mount.go.
use t_cloud_public_csi_drive.Common.{str_eq, true, ap, ◌⊎◌, ◌≡◌, refl, Option, some, [], ◌∷◌, index}
use t_cloud_public_csi_drive.Text.{trim_space, is_blank, to_lower}
use t_cloud_public_csi_drive.Eff.{ok, err}
use t_cloud_public_csi_drive.Eff.Rules.{EndsIn, Moves, Moves-pure}
use t_cloud_public_csi_drive.Errors.{only, mount_failed, errors_is, exit_status_of}
use t_cloud_public_csi_drive.Host.{
  HostCall, Host, detached, command, read_context, read_mount_point, statfs, caller, host_actions,
}
use t_cloud_public_csi_drive.Mount.{
  remount_options, options_of_flags, bind_options, mount_arguments, contains, bind_flavor,
  holds_device,
}
use t_cloud_public_csi_drive.Mount.Filesystem.{failed_as, get_filesystem_type, format}
use t_cloud_public_csi_drive.Mount.Device.{discover_device}
use t_cloud_public_csi_drive.Mount.Operations.{mount, format_and_mount, run_mount, mount_once}
use t_cloud_public_csi_drive.Mount.Quiet.{formats, Same, Same-refl}
use t_cloud_public_csi_drive.Mount.Rollback.{RolledBack, mount_once-RolledBack}
use t_cloud_public_csi_drive.Driver.Csi.{
  single_node_writer, mount_access, VolumeCapability, StageRequest, NodePublishRequest,
  UnstageRequest, NodeUnpublishRequest,
}
use t_cloud_public_csi_drive.Driver.Capability.{
  is_supported_filesystem_type, validate_volume_capability,
}
use t_cloud_public_csi_drive.Driver.Controller.{device_path_key}
use t_cloud_public_csi_drive.Driver.Node.{
  node_stage_volume, node_publish_volume, node_unstage_volume, node_unpublish_volume,
}
use t_cloud_public_csi_drive.Driver.Node.Wiring.{linux_mounter}
use t_cloud_public_csi_drive.Driver.Node.Quiet.{QuietFiles, handlers-quiet}
use t_cloud_public_csi_drive.Driver.Node.Remounts.{Published, node_publish-Published}
use t_cloud_public_csi_drive.Driver.Node.Staging.{Formatted, node_stage-Formatted}
use t_cloud_public_csi_drive.Examples.Hosts.{sample_host, sample_mounter, sample_files}

abbrev writer : VolumeCapability
writer = record {
  access_mode = some single_node_writer;
  access_type = mount_access (record { fs_type = "ext4"; mount_flags = "noatime" ∷ [] });
}

abbrev staging : StageRequest
staging = record {
  volume_id = "vol-1";
  publish_context = (device_path_key, "/dev/vdb") ∷ [];
  staging_target_path = "/stage";
  volume_capability = some writer;
}

sample_files_quiet : QuietFiles sample_files
sample_files_quiet = record {
  mkdir_all = λ path. Moves-pure Same-refl tt;
  open_file = λ path. Moves-pure Same-refl tt;
  close_file = λ path. Moves-pure Same-refl tt;
  remove = λ path. Moves-pure Same-refl tt;
}

abbrev formatted : HostCall
formatted = command "mkfs.ext4" ("-F" ∷ "-m0" ∷ "/dev/vdb" ∷ [])

stage_test :
    formats
      (node_stage_volume
        (linux_mounter sample_host sample_mounter caller)
        sample_files
        (some staging)
        []).1
    ≡ formatted ∷ []
unfolding node_stage_volume format_and_mount host_actions formats is_supported_filesystem_type
    to_lower errors_is get_filesystem_type exit_status_of contains format bind_flavor
    discover_device holds_device validate_volume_capability index trim_space is_blank
stage_test = refl

node_stage-Formatted_example :
    (formats
        (node_stage_volume
          (linux_mounter sample_host sample_mounter caller)
          sample_files
          (some staging)
          []).1
      ≡ formats [])
    ⊎ ((call : HostCall) × (formats
            (node_stage_volume
              (linux_mounter sample_host sample_mounter caller)
              sample_files
              (some staging)
              []).1
          ≡ call ∷ formats [])
        × Formatted sample_host sample_mounter caller staging call)
node_stage-Formatted_example =
    node_stage-Formatted sample_host sample_mounter caller sample_files sample_files_quiet staging
      []

handlers-quiet_example :
    ((request : Option NodePublishRequest)
      → Moves Same (
          node_publish_volume
            (linux_mounter sample_host sample_mounter caller)
            sample_files
            request))
    × ((request : Option UnstageRequest)
        → Moves Same (
            node_unstage_volume
              (linux_mounter sample_host sample_mounter caller)
              sample_files
              request))
    × ((request : Option NodeUnpublishRequest)
        → Moves Same (
            node_unpublish_volume
              (linux_mounter sample_host sample_mounter caller)
              sample_files
              request))
handlers-quiet_example =
    handlers-quiet sample_host sample_mounter caller sample_files sample_files_quiet

-- A host that has the target mounted and cannot read the flags of the source.
abbrev unreadable_host : Host
unreadable_host = record sample_host {
  mount_point = λ _ _. ok true;
  mount_flags = λ _ _. err (only mount_failed);
}

rollback_test : mount_once unreadable_host caller "/stage" "/target" "" ("bind" ∷ []) [] ≡ (
  err (only mount_failed),
  command "umount" ("/target" ∷ [])
      ∷ read_mount_point "/target"
      ∷ read_context detached
      ∷ read_context detached
      ∷ statfs "/stage"
      ∷ command "mount" ("-o" ∷ "bind" ∷ "/stage" ∷ "/target" ∷ [])
      ∷ [],
)
unfolding mount_once host_actions bind_flavor contains bind_options mount_arguments failed_as
rollback_test = refl

mount_once-RolledBack_example :
    ((run_mount unreadable_host caller "/stage" "/target" ""
        (bind_options (bind_flavor ("bind" ∷ [])) ("bind" ∷ []))
        []).0
      ≡ err (only mount_failed))
    ⊎ RolledBack unreadable_host caller "/stage" "/target" ""
        ("bind" ∷ [])
        (only mount_failed)
        (mount_once unreadable_host caller "/stage" "/target" "" ("bind" ∷ []) []).1
mount_once-RolledBack_example =
    mount_once-RolledBack unreadable_host caller "/stage" "/target" "" ("bind" ∷ []) []
      (only mount_failed) refl (unfold bind_flavor contains in refl) (ap (λ p. p.0) rollback_test)

-- A host that has the volume staged.
abbrev staged_host : Host
staged_host = record sample_host { mount_point = λ path _. ok (str_eq path "/stage") }

abbrev publication : NodePublishRequest
publication = record {
  volume_id = "vol-1";
  publish_context = [];
  staging_target_path = "/stage";
  target_path = "/target";
  volume_capability = some writer;
  readonly = true;
}

publish_test :
    node_publish_volume
      (linux_mounter staged_host sample_mounter caller)
      sample_files
      (some publication)
      []
    ≡ (
      ok tt,
      command "mount" ("-o" ∷ "bind,remount,ro,noatime" ∷ "/stage" ∷ "/target" ∷ [])
          ∷ statfs "/stage"
          ∷ command "mount" ("-o" ∷ "bind" ∷ "/stage" ∷ "/target" ∷ [])
          ∷ read_mount_point "/target"
          ∷ read_context caller
          ∷ read_context caller
          ∷ read_mount_point "/stage"
          ∷ read_context caller
          ∷ [],
    )
unfolding node_publish_volume host_actions is_supported_filesystem_type to_lower contains
    bind_flavor validate_volume_capability index trim_space is_blank mount bind_options
    mount_arguments failed_as remount_options options_of_flags
publish_test = refl

node_publish-Published_example : EndsIn (Published staged_host sample_mounter caller publication) (
    node_publish_volume
      (linux_mounter staged_host sample_mounter caller)
      sample_files
      (some publication))
node_publish-Published_example =
    node_publish-Published staged_host sample_mounter caller publication sample_files
