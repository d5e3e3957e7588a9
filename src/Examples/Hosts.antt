-- ===== src/Examples/Hosts.antt =====
-- Tests of internal/mount/mount.go and of the handlers of internal/driver/node.go.
use t_cloud_public_csi_drive.Common.{
  ◌⊎◌, ◌≡◌, ◌≢◌, refl, ◌↔◌, true, false, none, some, [], ◌∷◌, arith, if◌then◌else◌, str_eq, ◌||◌,
  eq_iff,
}
use t_cloud_public_csi_drive.Text.{is_blank, to_lower}
use t_cloud_public_csi_drive.Eff.{Result, err, ok, pure}
use t_cloud_public_csi_drive.Eff.Rules.{Any, Yields, EndsIn}
use t_cloud_public_csi_drive.Errors.{Err, errors_is, exit_status, exit_status_of, not_exist, only}
use t_cloud_public_csi_drive.Host.{
  HostCall, command, Host, caller, HostHistory, Outcome, host_actions,
}
use t_cloud_public_csi_drive.Mount.{
  LinuxMounter, contains, remount_options, bind_flavor, holds_device,
}
use t_cloud_public_csi_drive.Mount.Device.{discover_device}
use t_cloud_public_csi_drive.Mount.Identity.{IsDeviceOf, discover_device-IsDeviceOf}
use t_cloud_public_csi_drive.Mount.Filesystem.{get_filesystem_type, format}
use t_cloud_public_csi_drive.Mount.Operations.{requested_type, format_and_mount, mount}
use t_cloud_public_csi_drive.Mount.Binding.{Remounted, mount-Remounted}
use t_cloud_public_csi_drive.Mount.Quiet.{formats}
use t_cloud_public_csi_drive.Mount.Formatting.{FormatsDevice, format_and_mount-formats}
use t_cloud_public_csi_drive.Driver.Csi.{
  Code, single_node_reader_only, mount_access, VolumeCapability, NodePublishRequest, UnstageRequest,
}
use t_cloud_public_csi_drive.Driver.Capability.{is_supported_filesystem_type}
use t_cloud_public_csi_drive.Driver.Node.{
  Files, publish_options, node_publish_volume, node_unstage_volume,
}
use t_cloud_public_csi_drive.Driver.Node.Wiring.{linux_mounter}
use t_cloud_public_csi_drive.Driver.Node.Publication.{
  IsAllowed, node_publish-IsAllowed, IsGone, node_unstage_succeeds,
}

abbrev succeeded : Outcome
succeeded = record { output = ""; failure = none }

-- A host with one disk and no filesystem on it.
abbrev pub sample_host : Host
sample_host = record {
  context_err = λ _ _. none;
  run = λ name _ _.
      if str_eq name "blkid"
      then record { output = ""; failure = some (exit_status 2 ∷ []) }
      else succeeded;
  stat_err = λ path _.
      if str_eq path "/dev/vdb" || str_eq path "/dev/disk/by-id/virtio-vol-1"
      then none
      else some (only not_exist);
  mkdir_err = λ _ _. none;
  resolved = λ path _. if str_eq path "/dev/disk/by-id/virtio-vol-1" then some "/dev/vdb" else none;
  mount_point = λ _ _. ok false;
  is_corrupted = λ _. false;
  mount_source = λ _ _. ok "/dev/vdb";
  mount_flags = λ _ _. ok 1;
}

abbrev pub sample_mounter : LinuxMounter
sample_mounter = record { dev_dir = "/dev"; disk_by_id_dir = "/dev/disk/by-id" }

abbrev pub sample_files : Files HostHistory
sample_files = record {
  mkdir_all = λ _. pure tt;
  open_file = λ _. pure tt;
  close_file = λ _. pure tt;
  remove = λ _. pure tt;
}

discover_device-IsDeviceOf_example :
    Yields
      (IsDeviceOf sample_host sample_mounter "vol-1" "/dev/vdb")
      Any
      (discover_device sample_host sample_mounter caller "vol-1" "/dev/vdb")
discover_device-IsDeviceOf_example =
    discover_device-IsDeviceOf sample_host sample_mounter caller "vol-1" "/dev/vdb"

discover_device_test :
    (discover_device sample_host sample_mounter caller "vol-1" "/dev/vdb" []).0 ≡ ok "/dev/vdb"
unfolding discover_device host_actions holds_device
discover_device_test = refl

format_test :
    formats (format_and_mount sample_host caller "/dev/vdb" "/stage" "ext4" [] []).1
    ≡ command "mkfs.ext4" ("-F" ∷ "-m0" ∷ "/dev/vdb" ∷ []) ∷ []
unfolding format_and_mount host_actions formats is_supported_filesystem_type to_lower errors_is
    get_filesystem_type exit_status_of contains format bind_flavor
format_test = refl

format_and_mount-formats_example :
    (formats (format_and_mount sample_host caller "/dev/vdb" "/stage" "ext4" [] []).1 ≡ formats [])
    ⊎ ((call : HostCall) × (moment : HostHistory) × (formats
            (format_and_mount sample_host caller "/dev/vdb" "/stage" "ext4" [] []).1
          ≡ call ∷ formats [])
        × FormatsDevice (requested_type "ext4") "/dev/vdb" call
        × ((get_filesystem_type sample_host caller "/dev/vdb" moment).0 ≡ ok "")
        × (contains [] "ro" ≡ false))
format_and_mount-formats_example =
    format_and_mount-formats sample_host caller "/dev/vdb" "/stage" "ext4" [] []

-- With an `rw` among the flags it comes after the `ro`.
published_rw_test :
    remount_options [] (publish_options true ("rw" ∷ [])) ≡ "bind" ∷ "remount" ∷ "ro" ∷ "rw" ∷ []
unfolding remount_options publish_options
published_rw_test = refl

abbrev read_only : VolumeCapability
read_only = record {
  access_mode = some single_node_reader_only;
  access_type = mount_access (record { fs_type = ""; mount_flags = [] });
}

abbrev node_publication : NodePublishRequest
node_publication = record {
  volume_id = "vol-1";
  publish_context = [];
  staging_target_path = "/stage";
  target_path = "/target";
  volume_capability = some read_only;
  readonly = true;
}

node_publish-IsAllowed_example :
    Yields
      (λ _. IsAllowed node_publication)
      Any
      (node_publish_volume
        (linux_mounter sample_host sample_mounter caller)
        sample_files
        (some node_publication))
node_publish-IsAllowed_example =
    node_publish-IsAllowed (linux_mounter sample_host sample_mounter caller) sample_files
      node_publication

abbrev unstaging : UnstageRequest
unstaging = record { volume_id = "vol-1"; staging_target_path = "/stage" }

abbrev unstaged : Result Code (Unit {0}) × HostHistory
unstaged =
    node_unstage_volume (linux_mounter sample_host sample_mounter caller) sample_files
      (some unstaging) []

abbrev unmounted : Result Err (Unit {0}) × HostHistory
unmounted = (linux_mounter sample_host sample_mounter caller).unmount "/stage" []

node_unstage_succeeds_example :
    ((unstaged.0 ≡ ok tt) ↔ (
      (is_blank "vol-1" ≡ false)
      × (is_blank "/stage" ≡ false)
      × (unmounted.0 ≡ ok tt)
      × IsGone (sample_files.remove "/stage" unmounted.1).0))
    × ((is_blank "vol-1" ≡ true) ⊎ (is_blank "/stage" ≡ true) → unstaged.1 ≡ [])
    × ((e : Err)
        → is_blank "vol-1" ≡ false
        → is_blank "/stage" ≡ false
        → unmounted.0 ≡ err e
        → (unstaged.1 ≡ unmounted.1))
node_unstage_succeeds_example =
    node_unstage_succeeds (linux_mounter sample_host sample_mounter caller) sample_files unstaging
      []

bind_is_a_bind : bind_flavor ("bind" ∷ []) ≢ ""
unfolding bind_flavor
bind_is_a_bind = ground (arith, eq_iff "bind" "")

mount-Remounted_example :
    EndsIn
      (Remounted sample_host caller "/stage" "/target" "" ("bind" ∷ []))
      (mount sample_host caller "/stage" "/target" "" ("bind" ∷ []))
mount-Remounted_example =
    mount-Remounted sample_host caller "/stage" "/target" "" ("bind" ∷ []) bind_is_a_bind
