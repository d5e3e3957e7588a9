-- ===== src/Mount/Filesystem.antt =====
-- internal/mount/mount.go: `GetFilesystemType`, `format` and `checkFilesystem`.
use t_cloud_public_csi_drive.Common.{
  ℕ, String, Bool, false, ◌==◌, Option, none, some, List, [], ◌∷◌, if◌then◌else◌, str_eq,
}
use Prim.Native.String.{◌++◌ as str_append}
use t_cloud_public_csi_drive.Text.{trim_space}
use t_cloud_public_csi_drive.Eff.{pure, raise, ◌>>=◌, ◌>>◌}
use t_cloud_public_csi_drive.Errors.{
  Err, exit_status_of, invalid_input, unsupported_filesystem, filesystem_format_failed,
  filesystem_detection_failed, mount_failed, only,
}
use t_cloud_public_csi_drive.Host.{
  Host, HostContext, H, refuse_if, refuse_on, context_error, run_command,
}
use t_cloud_public_csi_drive.Mount.{blkid_no_filesystem, fsck_errors_uncorrected}

-- `errors.As(err, &exitErr) && exitErr.ExitStatus() == status`
abbrev pub exits_with : ℕ → Option ℕ → Bool
exits_with status none = false
exits_with status (some s) = s == status

-- The arguments of `mkfs`, if there is such a filesystem.
unfoldable pub format_arguments : String → String → Option (List String)
format_arguments fs_type source =
    if str_eq fs_type "ext4"
    then some ("-F" ∷ "-m0" ∷ source ∷ [])
    else if str_eq fs_type "xfs"
    then some ("-f" ∷ source ∷ [])
    else none

module _ (host : Host) (ctx : HostContext) where
  -- An ended context goes before the given error.
  unfoldable pub or_context_error : {A : Type 0} → Err → H A
  or_context_error e = do stopped ← context_error host ctx; refuse_on stopped; raise e

  -- `GetFilesystemType` after `lsblk`, by its output and its failure.
  abbrev pub after_lsblk : String → Option Err → H String
  after_lsblk output none = pure (trim_space output)
  after_lsblk output (some _) = or_context_error (only filesystem_detection_failed)

  -- The same after `blkid`.
  unfoldable pub after_blkid : String → String → Option Err → H String
  unfolding or_context_error
  after_blkid source output none = pure (trim_space output)
  after_blkid source output (some e) =
      if exits_with blkid_no_filesystem (exit_status_of e) then pure "" else do
        stopped ← context_error host ctx
        refuse_on stopped
        fallback ← run_command host "lsblk" ("-no" ∷ "FSTYPE" ∷ source ∷ [])
        after_lsblk fallback.output fallback.failure

  unfoldable pub get_filesystem_type : String → H String
  unfolding after_blkid
  get_filesystem_type source = do
    refuse_if (str_eq source "") (only invalid_input)
    found ← run_command host "blkid" ("-o" ∷ "value" ∷ "-s" ∷ "TYPE" ∷ source ∷ [])
    after_blkid source found.output found.failure

  -- What the failure of a command comes to, if there is one.
  unfoldable pub failed_as : Err → Option Err → H (Unit {0})
  unfolding or_context_error
  failed_as e none = pure tt
  failed_as e (some _) = or_context_error e

  unfoldable pub format : String → String → H (Unit {0})
  unfolding format_arguments failed_as
  format source fs_type = elim (format_arguments fs_type source) [
    | none ↦ raise (only unsupported_filesystem)
    | some args ↦ do
      done ← run_command host (str_append "mkfs." fs_type) args
      failed_as (only filesystem_format_failed) done.failure
  ]

  -- `checkFilesystem` after `fsck`: most failures are tolerated.
  unfoldable pub after_fsck : Option Err → H (Unit {0})
  after_fsck none = pure tt
  after_fsck (some e) = do
    stopped ← context_error host ctx
    refuse_on stopped
    refuse_if (exits_with fsck_errors_uncorrected (exit_status_of e)) (only mount_failed)

  unfoldable pub check_filesystem : String → H (Unit {0})
  unfolding after_fsck
  check_filesystem source = do
    done ← run_command host "fsck" ("-a" ∷ source ∷ [])
    after_fsck done.failure
