-- ===== src/Host.antt =====
-- What the mounter calls of the host and does not implement: commands, the file system, the mount
-- table and the caller's context. The state is the history of the calls, latest first, and each answer
-- is a function of it, so a host that others change meanwhile is one of these too.
use t_cloud_public_csi_drive.Common.{ℕ, String, Bool, true, false, Option, none, some, List, ◌∷◌}
use t_cloud_public_csi_drive.Eff.{Result, ok, Eff, pure, raise, ◌>>=◌}
use t_cloud_public_csi_drive.Errors.{Err}

-- The caller's context, or one that `context.WithoutCancel` and a timeout made of it.
pub data HostContext : Type 0 where
  caller : HostContext
  detached : HostContext

pub data HostCall : Type 0 where
  command : String → List String → HostCall
  read_context : HostContext → HostCall
  stat : String → HostCall
  mkdir_all : String → HostCall
  eval_symlinks : String → HostCall
  read_mount_point : String → HostCall
  read_mount_source : String → HostCall
  statfs : String → HostCall

abbrev pub HostHistory : Type 0
HostHistory = List HostCall

-- `CombinedOutput()`: the text, and an error if the command failed.
pub record Outcome : Type 0 where
  pub output : String
  pub failure : Option Err

-- Answers to the calls after a history.
pub record Host : Type 0 where
  pub context_err : HostContext → HostHistory → Option Err
  pub run : String → List String → HostHistory → Outcome
  -- `os.Stat`, as the error of a path that it cannot read
  pub stat_err : String → HostHistory → Option Err
  pub mkdir_err : String → HostHistory → Option Err
  -- `filepath.EvalSymlinks`
  pub resolved : String → HostHistory → Option String
  -- `mount-utils`: `IsMountPoint`, `IsCorruptedMnt` and `GetDeviceNameFromMount`
  pub mount_point : String → HostHistory → Result Err Bool
  pub is_corrupted : Err → Bool
  pub mount_source : String → HostHistory → Result Err String
  -- the flags that `statfs` gives
  pub mount_flags : String → HostHistory → Result Err ℕ

abbrev pub H : Type 0 → Type 0
H A = Eff HostHistory Err A

-- One call: its answer, and the history that has it.
unfoldable pub ask : {A : Type 0} → HostCall → (HostHistory → A) → H A
ask call answer h = (ok (answer h), call ∷ h)

-- `if failed { return err }`
unfoldable pub refuse_if : Bool → Err → H (Unit {0})
unfolding pure raise
refuse_if true e = raise e
refuse_if false e = pure tt

-- `if err != nil { return err }`
unfoldable pub refuse_on : Option Err → H (Unit {0})
unfolding pure raise
refuse_on none = pure tt
refuse_on (some e) = raise e

module _ (host : Host) where
  -- `ctx.Err()`
  unfoldable pub context_error : HostContext → H (Option Err)
  unfolding ask
  context_error ctx = ask (read_context ctx) (host.context_err ctx)

  -- `m.command(ctx, name, args...).CombinedOutput()`
  unfoldable pub run_command : String → List String → H Outcome
  unfolding ask
  run_command name args = ask (command name args) (host.run name args)

-- To open this opens every action above, and those of `Eff`.
unfoldable pub host_actions : Unit {0}
unfolding ◌>>=◌ ask refuse_if refuse_on context_error run_command
host_actions = tt
