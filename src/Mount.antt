-- ===== src/Mount.antt =====
-- internal/mount/mount.go: the values and the functions that no call of the host is part of.
pub mod Device
pub mod Filesystem
pub mod Operations
pub mod Remount
pub mod Quiet
pub mod Made
pub mod Rollback
pub mod Formatting
pub mod Identity
pub mod Binding
use t_cloud_public_csi_drive.Common.{
  ℕ, ◌/◌, ◌%◌, ◌==◌, ltb, String, Bool, true, false, not, ◌&&◌, ◌||◌, List, [], ◌∷◌, ◌++◌, any,
  keep, if◌then◌else◌, str_eq, starts_with,
}
use Prim.Native.String.{◌++◌ as str_append}
use t_cloud_public_csi_drive.Text.{text_length, text_take}
use t_cloud_public_csi_drive.Path.{is_abs, clean, rel}

abbrev pub default_filesystem_type : String
default_filesystem_type = "ext4"

abbrev pub blkid_no_filesystem : ℕ
blkid_no_filesystem = 2

abbrev pub virtio_serial_max_len : ℕ
virtio_serial_max_len = 20

abbrev pub fsck_errors_uncorrected : ℕ
fsck_errors_uncorrected = 4

abbrev pub umount_not_mounted : String
umount_not_mounted = "not mounted"

-- The directories of a `LinuxMounter`.
pub record LinuxMounter : Type 0 where
  pub dev_dir : String
  pub disk_by_id_dir : String

-- `slices.Contains(options, option)`
unfoldable pub contains : List String → String → Bool
contains options option = any (λ o. str_eq o option) options

-- `stat.Flags & flag == flag`, for a flag of one bit.
abbrev pub has_flag : ℕ → ℕ → Bool
has_flag flags flag = (flags / flag) % 2 == 1

-- `bindRemountOptions`: the `ST_*` flags and the option that restates each.
abbrev pub bind_remount_options : List (ℕ × String)
bind_remount_options =
    (0x0001, "ro")
    ∷ (0x0002, "nosuid")
    ∷ (0x0004, "nodev")
    ∷ (0x0008, "noexec")
    ∷ (0x0400, "noatime")
    ∷ (0x0800, "nodiratime")
    ∷ (0x1000, "relatime")
    ∷ (0x2000, "nosymfollow")
    ∷ []

-- The loop of `sourceMountOptions`.
unfoldable pub flag_options : ℕ → List (ℕ × String) → List String
flag_options flags [] = []
flag_options flags ((flag, option) ∷ rest) =
    let later = flag_options flags rest in if has_flag flags flag then option ∷ later else later

unfoldable pub options_of_flags : ℕ → List String
unfolding flag_options
options_of_flags flags = flag_options flags bind_remount_options

-- `bindFlavor`
unfoldable pub bind_flavor : List String → String
bind_flavor [] = ""
bind_flavor (option ∷ rest) =
    let later = bind_flavor rest in
    if str_eq option "bind" || str_eq option "rbind" then option else later

-- An option that the remount does not take over: it says so itself, or it would undo the source's.
abbrev pub is_dropped : Bool → String → Bool
is_dropped source_read_only option =
    str_eq option "bind"
    || str_eq option "rbind"
    || str_eq option "remount"
    || (str_eq option "rw" && source_read_only)

-- One round of the loop of `remountBind`.
abbrev pub take_over : Bool → List String → String → List String
take_over source_read_only listed option =
    if is_dropped source_read_only option || contains listed option
    then listed
    else listed ++ option ∷ []

-- The loop, with the options that are listed so far.
unfoldable pub restate : Bool → List String → List String → List String
unfolding contains
restate source_read_only listed [] = listed
restate source_read_only listed (option ∷ rest) =
    restate source_read_only (take_over source_read_only listed option) rest

-- The options of the second command of a bind mount.
unfoldable pub remount_options : List String → List String → List String
unfolding restate contains
remount_options source_options options =
    restate (contains source_options "ro") ("bind" ∷ "remount" ∷ []) (source_options ++ options)

-- The options of the first command of a bind mount.
unfoldable pub bind_options : String → List String → List String
unfolding contains
bind_options flavor options =
    if contains options "_netdev" then flavor ∷ "_netdev" ∷ [] else flavor ∷ []

unfoldable pub join_options : List String → String
join_options [] = ""
join_options (o ∷ []) = o
join_options (o ∷ p ∷ rest) = str_append o (str_append "," (join_options (p ∷ rest)))

abbrev type_arguments : String → List String
type_arguments fs_type = if str_eq fs_type "" then [] else "-t" ∷ fs_type ∷ []

abbrev option_arguments : List String → List String
option_arguments [] = []
option_arguments (o ∷ rest) = "-o" ∷ join_options (o ∷ rest) ∷ []

-- The arguments of `mount`.
unfoldable pub mount_arguments : String → String → String → List String → List String
unfolding join_options
mount_arguments source target fs_type options =
    type_arguments fs_type ++ (option_arguments options ++ source ∷ target ∷ [])

-- The serials of a volume: its identifier, and what the VirtIO field holds of a longer one.
unfoldable pub serials : String → List String
unfolding text_length text_take
serials volume_id =
    if ltb virtio_serial_max_len (text_length volume_id)
    then volume_id ∷ text_take virtio_serial_max_len volume_id ∷ []
    else volume_id ∷ []

-- The names that a serial can have under the directory of links.
abbrev pub link_names : String → List String
link_names serial =
    serial
    ∷ str_append "virtio-" serial
    ∷ str_append "nvme-" serial
    ∷ str_append "scsi-" serial
    ∷ []

-- `holdsDevice`
unfoldable pub holds_device : LinuxMounter → String → Bool
unfolding is_abs clean rel
holds_device m path =
    if not (is_abs path)
    then false
    else let r = rel m.dev_dir (clean path) in
      not (str_eq r ".") && not (str_eq r "..") && not (starts_with r "../")
