-- ===== src/Driver/Capability.antt =====
-- internal/driver/controller.go: `validateVolumeCapability`, `validateParameters`, and
-- `IsSupportedFilesystemType` of internal/mount/mount.go.
pub mod Admission
use t_cloud_public_csi_drive.Common.{
  Bool, true, false, not, ◌||◌, ◌&&◌, Option, none, some, String, List, [], ◌∷◌, if◌then◌else◌,
  str_eq, starts_with, Dict, keys, sort, text_leb,
}
use t_cloud_public_csi_drive.Text.{trim_space, to_lower}
use t_cloud_public_csi_drive.Driver.Csi.{
  Code, invalid_argument_code, AccessMode, single_node_writer, single_node_reader_only, AccessType,
  mount_access, VolumeCapability,
}

abbrev pub co_reserved_parameter_prefix : String
co_reserved_parameter_prefix = "csi.storage.k8s.io/"

abbrev pub param_volume_type : String
param_volume_type = "type"

abbrev pub param_availability_zone : String
param_availability_zone = "availability_zone"

unfoldable pub is_supported_filesystem_type : String → Bool
is_supported_filesystem_type fs_type =
    str_eq (to_lower fs_type) "ext4" || str_eq (to_lower fs_type) "xfs"

-- `cap.GetMount().GetFsType()`
abbrev pub get_fs_type : AccessType → String
get_fs_type (mount_access m) = m.fs_type
get_fs_type _ = ""

abbrev pub is_supported_mode : AccessMode → Bool
is_supported_mode single_node_writer = true
is_supported_mode single_node_reader_only = true
is_supported_mode _ = false

unfoldable pub validate_mode : AccessMode → AccessType → Option Code
validate_mode mode access =
    if not (is_supported_mode mode)
    then some invalid_argument_code
    else let fs_type = trim_space (get_fs_type access) in
      if not (str_eq fs_type "") && not (is_supported_filesystem_type fs_type)
      then some invalid_argument_code
      else none

-- A status, or none where the code returns a nil error.
unfoldable pub validate_volume_capability : Option VolumeCapability → Option Code
unfolding validate_mode
validate_volume_capability none = some invalid_argument_code
validate_volume_capability (some cap) = elim cap.access_mode [
  | none ↦ some invalid_argument_code
  | some mode ↦ validate_mode mode cap.access_type
]

-- The loop over the capabilities of a request.
unfoldable pub validate_capabilities : List (Option VolumeCapability) → Option Code
validate_capabilities [] = none
validate_capabilities (vc ∷ rest) = elim (validate_volume_capability vc) [
  | none ↦ validate_capabilities rest
  | some code ↦ some code
]

abbrev pub is_accepted_parameter : String → Bool
is_accepted_parameter key =
    starts_with key co_reserved_parameter_prefix
    || str_eq key param_volume_type
    || str_eq key param_availability_zone

-- The loop over the sorted keys.
unfoldable pub validate_keys : List String → Option Code
validate_keys [] = none
validate_keys (key ∷ rest) =
    let later = validate_keys rest in
    if is_accepted_parameter key then later else some invalid_argument_code

unfoldable pub validate_parameters : Dict → Option Code
unfolding validate_keys
validate_parameters params = validate_keys (sort text_leb (keys params))
