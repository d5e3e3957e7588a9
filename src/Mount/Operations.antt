-- ===== src/Mount/Operations.antt =====
-- internal/mount/mount.go: `FormatAndMount`, `Mount`, `Unmount`, `IsMountPoint`, `GetMountSource`.
use t_cloud_public_csi_drive.Common.{
  ℕ, String, Bool, true, false, not, ◌&&◌, Option, none, some, List, [], ◌∷◌, ◌++◌, if◌then◌else◌,
  str_eq,
}
use t_cloud_public_csi_drive.Text.{to_lower, text_contains}
use t_cloud_public_csi_drive.Eff.{Result, ok, err, pure, raise, lift, attempt, ◌>>=◌, ◌>>◌}
use t_cloud_public_csi_drive.Errors.{
  Err, errors_is, not_exist, invalid_input, unsupported_filesystem, mount_failed, unmount_failed,
  filesystem_mismatch, only, plain,
}
use t_cloud_public_csi_drive.Host.{
  Host, HostContext, detached, H, stat, mkdir_all, read_mount_point, read_mount_source, statfs, ask,
  refuse_if, refuse_on, context_error, run_command,
}
use t_cloud_public_csi_drive.Driver.Capability.{is_supported_filesystem_type}
use t_cloud_public_csi_drive.Mount.{
  default_filesystem_type, umount_not_mounted, contains, options_of_flags, bind_flavor,
  remount_options, bind_options, mount_arguments,
}
use t_cloud_public_csi_drive.Mount.Filesystem.{
  get_filesystem_type, format, check_filesystem, failed_as,
}

-- The filesystem that a caller asks for.
abbrev pub requested_type : String → String
requested_type fs_type = to_lower (if str_eq fs_type "" then default_filesystem_type else fs_type)

module _ (host : Host) where
  abbrev pub mount_point_of : Result Err Bool → H Bool
  mount_point_of (ok mounted) = pure mounted
  mount_point_of (err e) =
      if errors_is e not_exist
      then pure false
      else if host.is_corrupted e
      then pure true
      else raise e

  unfoldable pub is_mount_point : HostContext → String → H Bool
  is_mount_point ctx target = do
    refuse_if (str_eq target "") (only invalid_input)
    stopped ← context_error host ctx
    refuse_on stopped
    answer ← ask (read_mount_point target) (host.mount_point target)
    mount_point_of answer

  -- `GetMountSource`; an empty name is an error of no sentinel.
  unfoldable pub get_mount_source : HostContext → String → H String
  get_mount_source ctx target = do
    refuse_if (str_eq target "") (only invalid_input)
    stopped ← context_error host ctx
    refuse_on stopped
    answer ← ask (read_mount_source target) (host.mount_source target)
    name ← lift answer
    refuse_if (str_eq name "") plain
    pure name

  unfoldable pub run_mount : HostContext → String → String → String → List String → H (Unit {0})
  run_mount ctx source target fs_type options = do
    done ← run_command host "mount" (mount_arguments source target fs_type options)
    failed_as host ctx (only mount_failed) done.failure

  abbrev pub source_options : Result Err ℕ → H (List String)
  source_options (ok flags) = pure (options_of_flags flags)
  source_options (err _) = raise (only mount_failed)

  unfoldable pub remount_bind : HostContext → String → String → String → List String → H (Unit {0})
  unfolding run_mount
  remount_bind ctx source target fs_type options = do
    flags ← ask (statfs source) (host.mount_flags source)
    of_source ← source_options flags
    run_mount ctx source target fs_type (remount_options of_source options)

  -- `Unmount` after `umount`, by its output and its failure.
  unfoldable pub after_umount : HostContext → String → Option Err → H (Unit {0})
  after_umount ctx output none = pure tt
  after_umount ctx output (some _) = do
    stopped ← context_error host ctx
    refuse_on stopped
    refuse_if (not (text_contains (to_lower output) umount_not_mounted)) (only unmount_failed)

  abbrev pub unmount_if : HostContext → String → Bool → H (Unit {0})
  unmount_if ctx target false = pure tt
  unmount_if ctx target true = do
    done ← run_command host "umount" (target ∷ [])
    after_umount ctx done.output done.failure

  unfoldable pub unmount : HostContext → String → H (Unit {0})
  unfolding is_mount_point after_umount
  unmount ctx target = do
    refuse_if (str_eq target "") (only invalid_input)
    stopped ← context_error host ctx
    refuse_on stopped
    mounted ← is_mount_point ctx target
    unmount_if ctx target mounted

  -- The context of the rollback is detached from the caller's.
  unfoldable pub roll_back_bind : String → H (Unit {0})
  unfolding unmount
  roll_back_bind target = do _ ← attempt (unmount detached target); pure tt

  -- `bindMount` after the remount.
  unfoldable pub after_remount : String → Result Err (Unit {0}) → H (Unit {0})
  unfolding roll_back_bind
  after_remount target (ok _) = pure tt
  after_remount target (err e) = do roll_back_bind target; raise e

  unfoldable pub bind_mount :
      HostContext → String → String → String → String → List String → H (Unit {0})
  unfolding run_mount remount_bind after_remount
  bind_mount ctx source target fs_type flavor options = do
    run_mount ctx source target fs_type (bind_options flavor options)
    remounted ← attempt (remount_bind ctx source target fs_type options)
    after_remount target remounted

  -- The method `mount`.
  unfoldable pub mount_once : HostContext → String → String → String → List String → H (Unit {0})
  unfolding bind_mount run_mount
  mount_once ctx source target fs_type options =
      if str_eq (bind_flavor options) ""
      then run_mount ctx source target fs_type options
      else bind_mount ctx source target fs_type (bind_flavor options) options

  abbrev pub mount_unless :
      HostContext → String → String → String → List String → Bool → H (Unit {0})
  mount_unless ctx source target fs_type options false =
      mount_once ctx source target fs_type options
  mount_unless ctx source target fs_type options true =
      if str_eq (bind_flavor options) ""
      then pure tt
      else remount_bind ctx source target fs_type options

  -- The method `Mount`.
  unfoldable pub mount : HostContext → String → String → String → List String → H (Unit {0})
  unfolding is_mount_point mount_once remount_bind
  mount ctx source target fs_type options = do
    refuse_if (str_eq source "") (only invalid_input)
    refuse_if (str_eq target "") (only invalid_input)
    stopped ← context_error host ctx
    refuse_on stopped
    mounted ← is_mount_point ctx target
    mount_unless ctx source target fs_type options mounted

  -- The target directory is made if it is missing.
  unfoldable pub ensure_directory : String → Option Err → H (Unit {0})
  ensure_directory target none = pure tt
  ensure_directory target (some e) =
      if errors_is e not_exist
      then (do failed ← ask (mkdir_all target) (host.mkdir_err target); refuse_on failed)
      else raise e

  -- Formats a device with no filesystem, and checks one that is mounted for writing.
  unfoldable pub prepare : HostContext → String → String → String → Bool → H (Unit {0})
  prepare ctx source existing fs_type read_only =
      if str_eq existing ""
      then (do refuse_if read_only (only mount_failed); format host ctx source fs_type)
      else if read_only
      then pure tt
      else check_filesystem host ctx source

  -- `FormatAndMount` from the filesystem that it found on the device.
  unfoldable pub mount_found :
      HostContext → String → String → String → List String → String → H (Unit {0})
  unfolding prepare mount_once
  mount_found ctx source target fs_type options existing = do
    refuse_if (not (str_eq existing "") && not (str_eq existing fs_type)) (only filesystem_mismatch)
    prepare ctx source existing fs_type (contains options "ro")
    mount_once ctx source target fs_type (options ++ "defaults" ∷ [])

  -- `FormatAndMount` for a target that is no mount point.
  unfoldable pub mount_device : HostContext → String → String → String → List String → H (Unit {0})
  unfolding mount_found
  mount_device ctx source target fs_type options = do
    existing ← get_filesystem_type host ctx source
    mount_found ctx source target fs_type options existing

  abbrev pub mount_device_unless :
      HostContext → String → String → String → List String → Bool → H (Unit {0})
  mount_device_unless ctx source target fs_type options true = pure tt
  mount_device_unless ctx source target fs_type options false =
      mount_device ctx source target fs_type options

  unfoldable pub format_and_mount :
      HostContext → String → String → String → List String → H (Unit {0})
  unfolding ensure_directory is_mount_point mount_device
  format_and_mount ctx source target fs_type options = do
    refuse_if (str_eq source "") (only invalid_input)
    refuse_if (str_eq target "") (only invalid_input)
    stopped ← context_error host ctx
    refuse_on stopped
    refuse_if (not (is_supported_filesystem_type (requested_type fs_type)))
        (only unsupported_filesystem)
    gone ← ask (stat target) (host.stat_err target)
    ensure_directory target gone
    mounted ← is_mount_point ctx target
    mount_device_unless ctx source target (requested_type fs_type) options mounted
