-- ===== src/Mount/Quiet.antt =====
-- internal/mount/mount.go: the operations that run no command that makes a filesystem.
use t_cloud_public_csi_drive.Common.{
  ℕ, ◌≡◌, refl, ◌∙◌, Bool, true, false, Option, none, some, String, List, [], ◌∷◌, arith,
  starts_with, if◌then◌else◌,
}
use t_cloud_public_csi_drive.Eff.{Result, ok, err, ◌>>=◌}
use t_cloud_public_csi_drive.Eff.Rules.{
  Moves, Moves-pure, Moves-raise, Moves-lift, Moves-attempt, Moves-bind, Moves-if,
}
use t_cloud_public_csi_drive.Errors.{Err}
use t_cloud_public_csi_drive.Host.{
  Host, HostContext, HostCall, command, HostHistory, H, ask, refuse_if, refuse_on, context_error,
  run_command, host_actions,
}
use t_cloud_public_csi_drive.Mount.Filesystem.{
  get_filesystem_type, after_lsblk, after_blkid, check_filesystem, after_fsck, failed_as,
  or_context_error,
}
use t_cloud_public_csi_drive.Mount.Operations.{
  mount_point_of, source_options, unmount_if, is_mount_point, run_mount, remount_bind, unmount,
  after_umount, roll_back_bind, after_remount, bind_mount, mount_once,
}

abbrev pub is_format : HostCall → Bool
is_format (command name args) = starts_with name "mkfs."
is_format _ = false

-- The commands of a history that make a filesystem, the latest first.
unfoldable pub formats : HostHistory → List HostCall
formats [] = []
formats (c ∷ h) = let made = formats h in if is_format c then c ∷ made else made

abbrev pub Same : HostHistory → HostHistory → Type 0
Same h h' = formats h' ≡ formats h

pub Same-refl : (h : HostHistory) → Same h h
Same-refl h = refl

pub Same-trans : (h i j : HostHistory) → Same h i → Same i j → Same h j
Same-trans h i j p q = q ∙ p

pub Moves-ask :
    {A : Type 0} (c : HostCall) (answer : HostHistory → A)
    → is_format c ≡ false
    → Moves Same (ask c answer)
unfolding ask formats
Moves-ask c answer e = record { at = λ h. ground arith }

pub Moves-run_command :
    (host : Host) (name : String) (args : List String)
    → starts_with name "mkfs." ≡ false
    → Moves Same (run_command host name args)
unfolding run_command formats host_actions
Moves-run_command host name args e = record { at = λ h. ground arith }

pub Moves-context_error : (host : Host) (ctx : HostContext) → Moves Same (context_error host ctx)
unfolding host_actions formats
Moves-context_error host ctx = record { at = λ h. refl }

pub Moves-refuse_if : (b : Bool) (e : Err) → Moves Same (refuse_if b e)
unfolding host_actions
Moves-refuse_if true e = record { at = λ h. refl }
Moves-refuse_if false e = record { at = λ h. refl }

pub Moves-refuse_on : (o : Option Err) → Moves Same (refuse_on o)
unfolding host_actions
Moves-refuse_on none = record { at = λ h. refl }
Moves-refuse_on (some e) = record { at = λ h. refl }

pub Moves-refused :
    {B : Type 0} (e : Err) (f : Unit {0} → H B) → Moves Same (refuse_if true e >>= f)
unfolding host_actions
Moves-refused e f = record { at = λ h. refl }

pub ruleset quiet_rules = (
  Same-refl, Same-trans, Moves-pure, Moves-raise, Moves-lift, Moves-attempt, Moves-bind, Moves-ask,
  Moves-run_command, Moves-context_error, Moves-refuse_if, Moves-refuse_on, Moves-refused, Moves-if,
)

module _ (host : Host) where
  pub or_context_error-quiet :
      {A : Type 0} (ctx : HostContext) (e : Err) → Moves Same (or_context_error host ctx {A = A} e)
  unfolding or_context_error
  or_context_error-quiet ctx e = search quiet_rules depth 20

  pub failed_as-quiet :
      (ctx : HostContext) (e : Err) (o : Option Err) → Moves Same (failed_as host ctx e o)
  unfolding failed_as
  failed_as-quiet ctx e none = search quiet_rules depth 20
  failed_as-quiet ctx e (some x) = or_context_error-quiet ctx e

  pub run_mount-quiet :
      (ctx : HostContext) (source target fs_type : String) (options : List String)
      → Moves Same (run_mount host ctx source target fs_type options)
  unfolding run_mount
  run_mount-quiet ctx source target fs_type options = search (quiet_rules, failed_as-quiet) depth 20

  pub remount_bind-quiet :
      (ctx : HostContext) (source target fs_type : String) (options : List String)
      → Moves Same (remount_bind host ctx source target fs_type options)
  unfolding remount_bind
  remount_bind-quiet ctx source target fs_type options =
      search (quiet_rules, run_mount-quiet, source_options-quiet) depth 20
    where
      source_options-quiet : (r : Result Err ℕ) → Moves Same (source_options host r)
      source_options-quiet (ok flags) = search quiet_rules depth 20
      source_options-quiet (err e) = search quiet_rules depth 20

  pub is_mount_point-quiet :
      (ctx : HostContext) (target : String) → Moves Same (is_mount_point host ctx target)
  unfolding is_mount_point
  is_mount_point-quiet ctx target = search (quiet_rules, mount_point_of-quiet) depth 20
    where
      mount_point_of-quiet : (r : Result Err Bool) → Moves Same (mount_point_of host r)
      mount_point_of-quiet (ok b) = search quiet_rules depth 20
      mount_point_of-quiet (err e) = search quiet_rules depth 20

  pub unmount-quiet : (ctx : HostContext) (target : String) → Moves Same (unmount host ctx target)
  unfolding unmount after_umount
  unmount-quiet ctx target = search (quiet_rules, is_mount_point-quiet, unmount_if-quiet) depth 20
    where
      after_umount-quiet :
          (output : String) (o : Option Err) → Moves Same (after_umount host ctx output o)
      after_umount-quiet output none = search quiet_rules depth 20
      after_umount-quiet output (some e) = search quiet_rules depth 20

      unmount_if-quiet : (b : Bool) → Moves Same (unmount_if host ctx target b)
      unmount_if-quiet false = search quiet_rules depth 20
      unmount_if-quiet true = search (quiet_rules, after_umount-quiet) depth 20

  pub mount_once-quiet :
      (ctx : HostContext) (source target fs_type : String) (options : List String)
      → Moves Same (mount_once host ctx source target fs_type options)
  unfolding mount_once bind_mount after_remount roll_back_bind
  mount_once-quiet ctx source target fs_type options =
      search (quiet_rules, run_mount-quiet, remount_bind-quiet, after_remount-quiet) depth 20
    where
      after_remount-quiet : (r : Result Err (Unit {0})) → Moves Same (after_remount host target r)
      after_remount-quiet (ok _) = search quiet_rules depth 20
      after_remount-quiet (err e) = search (quiet_rules, unmount-quiet) depth 20

  pub get_filesystem_type-quiet :
      (ctx : HostContext) (source : String) → Moves Same (get_filesystem_type host ctx source)
  unfolding get_filesystem_type after_blkid
  get_filesystem_type-quiet ctx source = search (quiet_rules, after_blkid-quiet) depth 20
    where
      after_lsblk-quiet :
          (output : String) (o : Option Err) → Moves Same (after_lsblk host ctx output o)
      after_lsblk-quiet output none = search quiet_rules depth 20
      after_lsblk-quiet output (some e) = or_context_error-quiet ctx _

      after_blkid-quiet :
          (output : String) (o : Option Err) → Moves Same (after_blkid host ctx source output o)
      after_blkid-quiet output none = search quiet_rules depth 20
      after_blkid-quiet output (some e) = search (quiet_rules, after_lsblk-quiet) depth 20

  pub check_filesystem-quiet :
      (ctx : HostContext) (source : String) → Moves Same (check_filesystem host ctx source)
  unfolding check_filesystem after_fsck
  check_filesystem-quiet ctx source = search (quiet_rules, after_fsck-quiet) depth 20
    where
      after_fsck-quiet : (o : Option Err) → Moves Same (after_fsck host ctx o)
      after_fsck-quiet none = search quiet_rules depth 20
      after_fsck-quiet (some e) = search quiet_rules depth 20
