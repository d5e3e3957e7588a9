-- ===== src/Mount/Formatting.antt =====
-- internal/mount/mount.go: when `FormatAndMount` makes a filesystem, and on which device.
use Prim.Native.String.{◌++◌ as str_append}
use t_cloud_public_csi_drive.Common.{
  Bool-cases, ◌∙◌, if◌then◌else◌, ◌≡◌, ap, refl, Bool, true, false, ◌⊎◌, inl, inr, String, List, [],
  ◌∷◌, ◌++◌, All, arith, str_eq, eq_iff, Option, none, some, starts_with,
}
use t_cloud_public_csi_drive.Eff.{Result, ok, err, raise, Eff, ◌>>=◌}
use t_cloud_public_csi_drive.Eff.Rules.{Any, Good, Moves-if, Moves, Moves-pure, Moves-raise, Yields}
use t_cloud_public_csi_drive.Errors.{
  mount_failed, Err, unsupported_filesystem, filesystem_format_failed, only,
}
use t_cloud_public_csi_drive.Host.{
  refuse_if, Host, HostContext, HostHistory, HostCall, command, run_command, host_actions,
}
use t_cloud_public_csi_drive.Mount.{contains}
use t_cloud_public_csi_drive.Mount.Made.{
  MadeAfter, MadeAfter-quiet, MadeAfter-given, MadeAfter-bind, MadeAfter-then, MadeAfter-if,
}
use t_cloud_public_csi_drive.Mount.Filesystem.{
  get_filesystem_type, format_arguments, format, failed_as,
}
use t_cloud_public_csi_drive.Mount.Operations.{
  requested_type, ensure_directory, prepare, mount_found, mount_device, mount_device_unless,
  format_and_mount,
}
use t_cloud_public_csi_drive.Mount.Quiet.{
  Moves-refused, formats, Same, Same-refl, Moves-ask, Moves-context_error, Moves-refuse_on,
  Moves-refuse_if, quiet_rules, mount_once-quiet, check_filesystem-quiet, get_filesystem_type-quiet,
  is_mount_point-quiet, failed_as-quiet,
}

-- A command that makes a filesystem on this device: its arguments are flags, and then the device.
pub record FormatsDevice (fs_type device : String) (call : HostCall) : Type 0 where
  pub flags : List String
  pub only_flags : All (λ flag. starts_with flag "-" ≡ true) flags
  pub runs : call ≡ command (str_append "mkfs." fs_type) (flags ++ device ∷ [])

module _ (fs_type device : String) (args : List String) where
  device_last :
      (flags : List String)
      → All (λ flag. starts_with flag "-" ≡ true) flags
      → args ≡ flags ++ device ∷ []
      → FormatsDevice fs_type device (command (str_append "mkfs." fs_type) args)
  device_last flags only e = record {
    flags = flags;
    only_flags = only;
    runs = ap (λ l. command (str_append "mkfs." fs_type) l) e;
  }

  format_arguments-FormatsDevice :
      format_arguments fs_type device ≡ some args
      → FormatsDevice fs_type device (command (str_append "mkfs." fs_type) args)
  unfolding format_arguments
  format_arguments-FormatsDevice = go (str_eq fs_type "ext4") (str_eq fs_type "xfs")
    where
      go :
          (ext4 xfs : Bool)
          → (if ext4
              then some ("-F" ∷ "-m0" ∷ device ∷ [])
              else if xfs
              then some ("-f" ∷ device ∷ [])
              else none)
            ≡ some args
          → FormatsDevice fs_type device (command (str_append "mkfs." fs_type) args)
      go true xfs e = device_last ("-F" ∷ "-m0" ∷ []) (refl, (refl, tt)) (ground arith)
      go false true e = device_last ("-f" ∷ []) (refl, tt) (ground arith)
      go false false e = absurd (ground arith)

mkfs_named :
    (fs_type device : String) (args : List String)
    → format_arguments fs_type device ≡ some args
    → starts_with (str_append "mkfs." fs_type) "mkfs." ≡ true
unfolding format_arguments
mkfs_named fs_type device args e = elim (Bool-cases (str_eq fs_type "ext4")) [
  | inl ext4 ↦ rw ((eq_iff fs_type "ext4").0 ext4) refl
  | inr other ↦ rw ((eq_iff fs_type "xfs").0 (ground arith)) refl
]

Yields-itself : {S E A : Type 0} (m : Eff S E A) → Yields (λ a. (s : S) × ((m s).0 ≡ ok a)) Any m
Yields-itself {S} {E} {A} m = record { outcome = λ s. go s (m s).0 refl }
  where
    go : (s : S) (r : Result E A) → (m s).0 ≡ r → Good (λ a. (s : S) × ((m s).0 ≡ ok a)) Any r
    go s (ok a) e = (s, e)
    go s (err x) e = tt

module _ (host : Host) (ctx : HostContext) (source target fs_type : String)
    (options : List String) where
  -- The command makes the filesystem on the device, on which the probes found none at that moment, for
  -- a mount that may write.
  abbrev pub Format : HostCall → HostHistory → Type 0
  Format call moment =
      FormatsDevice fs_type source call
      × ((get_filesystem_type host ctx source moment).0 ≡ ok "")
      × (contains options "ro" ≡ false)

  abbrev Empty : HostHistory → Type 0
  Empty moment = (get_filesystem_type host ctx source moment).0 ≡ ok ""

  format-MadeAfter :
      (moment : HostHistory)
      → Empty moment
      → contains options "ro" ≡ false
      → MadeAfter Format (format host ctx source fs_type)
  unfolding format host_actions formats
  format-MadeAfter moment empty writable = go (format_arguments fs_type source) refl
    where
      ran :
          (args : List String)
          → format_arguments fs_type source ≡ some args
          → MadeAfter Format (run_command host (str_append "mkfs." fs_type) args)
      ran args e = record {
        outcome = λ h. inr (record {
          call = command (str_append "mkfs." fs_type) args;
          moment = moment;
          one = ground (arith, mkfs_named fs_type source args e);
          reason = (format_arguments-FormatsDevice fs_type source args e, empty, writable);
        });
      }

      go :
          (o : Option (List String))
          → format_arguments fs_type source ≡ o
          → MadeAfter Format {E = Err} {A = Unit {0}} (elim o [
            | none ↦ raise (only unsupported_filesystem)
            | some args ↦ run_command host (str_append "mkfs." fs_type) args >>= λ done.
                failed_as host ctx (only filesystem_format_failed) done.failure
          ])
      go none e = MadeAfter-quiet (Moves-raise Same-refl _)
      go (some args) e =
          MadeAfter-then (ran args e)
            (λ done. failed_as-quiet host ctx (only filesystem_format_failed) done.failure)

  prepare-MadeAfter :
      (existing : String) (read_only : Bool) (moment : HostHistory)
      → contains options "ro" ≡ read_only
      → (get_filesystem_type host ctx source moment).0 ≡ ok existing
      → MadeAfter Format (prepare host ctx source existing fs_type read_only)
  unfolding prepare
  prepare-MadeAfter existing read_only moment asked probed =
      MadeAfter-if (str_eq existing "") _ _
        (λ empty. refused read_only asked ((eq_iff existing "").0 empty))
        (λ _. MadeAfter-quiet (
          Moves-if read_only _ _ (Moves-pure Same-refl tt)
            (check_filesystem-quiet host ctx source)))
    where
      refused :
          (read_only : Bool)
          → contains options "ro" ≡ read_only
          → existing ≡ ""
          → MadeAfter Format
              (refuse_if read_only (only mount_failed) >>= λ _. format host ctx source fs_type)
      refused true asked empty = MadeAfter-quiet (Moves-refused _ _)
      refused false asked empty =
          MadeAfter-bind (Moves-refuse_if _ _)
            (λ _. format-MadeAfter moment (probed ∙ ap ok empty) asked)

  mount_found-MadeAfter :
      (existing : String) (moment : HostHistory)
      → (get_filesystem_type host ctx source moment).0 ≡ ok existing
      → MadeAfter Format (mount_found host ctx source target fs_type options existing)
  unfolding mount_found
  mount_found-MadeAfter existing moment probed = MadeAfter-bind (Moves-refuse_if _ _) (λ _.
      MadeAfter-then (prepare-MadeAfter existing (contains options "ro") moment refl probed)
        (λ _. mount_once-quiet host ctx source target fs_type _))

  mount_device-MadeAfter : MadeAfter Format (mount_device host ctx source target fs_type options)
  unfolding mount_device
  mount_device-MadeAfter =
      MadeAfter-given (get_filesystem_type-quiet host ctx source)
        (Yields-itself (get_filesystem_type host ctx source))
        (λ existing (moment, probed). mount_found-MadeAfter existing moment probed)

module _ (host : Host) (ctx : HostContext) (source target fs_type : String)
    (options : List String) where
  unless-MadeAfter :
      (mounted : Bool)
      → MadeAfter
          (Format host ctx source target (requested_type fs_type) options)
          (mount_device_unless host ctx source target (requested_type fs_type) options mounted)
  unless-MadeAfter true = MadeAfter-quiet (Moves-pure Same-refl tt)
  unless-MadeAfter false =
      mount_device-MadeAfter host ctx source target (requested_type fs_type) options

  ensure_directory-quiet : (o : Option Err) → Moves Same (ensure_directory host target o)
  unfolding ensure_directory
  ensure_directory-quiet none = search quiet_rules depth 20
  ensure_directory-quiet (some e) = search quiet_rules depth 20

  pub format_and_mount-MadeAfter :
      MadeAfter
        (Format host ctx source target (requested_type fs_type) options)
        (format_and_mount host ctx source target fs_type options)
  unfolding format_and_mount
  format_and_mount-MadeAfter = MadeAfter-bind (Moves-refuse_if _ _) (λ _.
      MadeAfter-bind (Moves-refuse_if _ _) (λ _.
        MadeAfter-bind (Moves-context_error host ctx) (λ stopped.
          MadeAfter-bind (Moves-refuse_on stopped) (λ _. MadeAfter-bind (Moves-refuse_if _ _) (λ _.
            MadeAfter-bind (Moves-ask _ _ refl) (λ gone.
              MadeAfter-bind (ensure_directory-quiet gone)
                (λ _. MadeAfter-bind (is_mount_point-quiet host ctx target) unless-MadeAfter)))))))

  -- Whatever the host answers: `FormatAndMount` runs no command that makes a filesystem, or just one.
  -- Then its arguments are flags and, last, the device; the probes of the host found no filesystem on
  -- that device on the way; and the options do not ask for a read-only mount.
  pub format_and_mount-formats :
      (h : HostHistory)
      → (formats (format_and_mount host ctx source target fs_type options h).1 ≡ formats h)
        ⊎ ((call : HostCall) × (moment : HostHistory) × (formats
                (format_and_mount host ctx source target fs_type options h).1
              ≡ call ∷ formats h)
            × FormatsDevice (requested_type fs_type) source call
            × ((get_filesystem_type host ctx source moment).0 ≡ ok "")
            × (contains options "ro" ≡ false))
  format_and_mount-formats h = elim (format_and_mount-MadeAfter.outcome h) [
    | inl same ↦ inl same
    | inr made ↦ inr (made.call, made.moment, made.one, made.reason.0, made.reason.1, made.reason.2)
  ]
