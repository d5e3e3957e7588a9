-- ===== src/Driver/Node.antt =====
-- internal/driver/node.go: the handlers of the Node service, over any mounter and file system.
pub mod Wiring
pub mod Publication
pub mod Quiet
pub mod Staging
pub mod Remounts
use t_cloud_public_csi_drive.Common.{
  Bool, true, false, not, ◌&&◌, ◌||◌, Option, none, some, String, List, [], ◌∷◌, ◌++◌, keep,
  if◌then◌else◌, str_eq, index,
}
use t_cloud_public_csi_drive.Text.{trim_space, is_blank}
use t_cloud_public_csi_drive.Path.{dir}
use t_cloud_public_csi_drive.Eff.{Result, ok, err, Eff, pure, raise, lift, attempt, ◌>>=◌, ◌>>◌}
use t_cloud_public_csi_drive.Errors.{
  Err, errors_is, canceled, deadline_exceeded, invalid_input, device_identity_unverified, not_exist,
}
use t_cloud_public_csi_drive.Mount.{default_filesystem_type}
use t_cloud_public_csi_drive.Driver.Csi.{
  Code, canceled_code, deadline_exceeded_code, invalid_argument_code, not_found_code,
  failed_precondition_code, internal_code, AccessMode, single_node_reader_only, MountVolume,
  AccessType, no_access_type, block_access, mount_access, VolumeCapability, StageRequest,
  UnstageRequest, NodePublishRequest, NodeUnpublishRequest, NodeInfo,
}
use t_cloud_public_csi_drive.Driver.Capability.{validate_volume_capability}
use t_cloud_public_csi_drive.Driver.Request.{topology_zone_key}
use t_cloud_public_csi_drive.Driver.Controller.{device_path_key, refuse_when, check, given}

-- The operations of `Mounter` that the service calls, with the state that they change.
pub record Mounter (S : Type 0) : Type 0 where
  pub discover_device : String → String → Eff S Err String
  pub format_and_mount : String → String → String → List String → Eff S Err (Unit {0})
  pub mount : String → String → String → List String → Eff S Err (Unit {0})
  pub unmount : String → Eff S Err (Unit {0})
  pub is_mount_point : String → Eff S Err Bool

-- `os.MkdirAll`, `os.OpenFile`, `f.Close` and `os.Remove`
pub record Files (S : Type 0) : Type 0 where
  pub mkdir_all : String → Eff S Err (Unit {0})
  pub open_file : String → Eff S Err (Unit {0})
  pub close_file : String → Eff S Err (Unit {0})
  pub remove : String → Eff S Err (Unit {0})

-- The code of the status that `nodeHostError` makes of an error.
unfoldable pub node_host_error : Err → Code
node_host_error e =
    if errors_is e canceled
    then canceled_code
    else if errors_is e deadline_exceeded
    then deadline_exceeded_code
    else internal_code

-- The code of a failure of `discoverDevice`.
unfoldable pub device_error : Err → Code
device_error e =
    if errors_is e canceled
    then canceled_code
    else if errors_is e deadline_exceeded
    then deadline_exceeded_code
    else if errors_is e invalid_input
    then invalid_argument_code
    else if errors_is e device_identity_unverified
    then failed_precondition_code
    else not_found_code

abbrev pub access_of : Option VolumeCapability → AccessType
access_of none = no_access_type
access_of (some cap) = cap.access_type

abbrev is_reader_only : Option AccessMode → Bool
is_reader_only (some single_node_reader_only) = true
is_reader_only _ = false

-- `req.GetVolumeCapability().GetAccessMode().GetMode() == SINGLE_NODE_READER_ONLY`
abbrev pub is_read_only_mode : Option VolumeCapability → Bool
is_read_only_mode none = false
is_read_only_mode (some cap) = is_reader_only cap.access_mode

-- The options of a publication: the bind, `ro` where it is asked for, and the other flags.
unfoldable pub publish_options : Bool → List String → List String
publish_options readonly flags =
    "bind"
    ∷ ((if readonly then "ro" ∷ [] else [])
        ++ keep (λ opt. not (str_eq opt "bind") && not (str_eq opt "ro")) flags)

-- `NodeGetInfo` for a configured node and zone.
unfoldable pub node_get_info : String → String → Result Code NodeInfo
node_get_info node_id zone =
    if str_eq node_id ""
    then err invalid_argument_code
    else if str_eq zone ""
    then err failed_precondition_code
    else ok (record { node_id = node_id; accessible_topology = (topology_zone_key, zone) ∷ [] })

module _ {S : Type 0} where
  -- The value of an action, or the code that a failure of it has.
  unfoldable pub or_code : {A : Type 0} → (Err → Code) → Result Err A → Eff S Code A
  or_code code (ok a) = pure a
  or_code code (err e) = raise (code e)

  -- A file that is not there is removed already.
  unfoldable pub after_remove : Result Err (Unit {0}) → Eff S Code (Unit {0})
  after_remove (ok _) = pure tt
  after_remove (err e) = if errors_is e not_exist then pure tt else raise internal_code

module _ {S : Type 0} (mounter : Mounter S) (files : Files S) where
  unfoldable pub discover_device : String → String → Eff S Code String
  unfolding or_code
  discover_device volume_id published = do
    refuse_when (str_eq (trim_space published) "") invalid_argument_code
    answer ← attempt (mounter.discover_device volume_id (trim_space published))
    or_code device_error answer

  unfoldable pub make_directory : String → Eff S Code (Unit {0})
  unfolding or_code
  make_directory path = do
    answer ← attempt (files.mkdir_all path)
    or_code (λ _. internal_code) answer

  unfoldable pub create_block_target_file : String → Eff S Code (Unit {0})
  unfolding make_directory
  create_block_target_file target_path = do
    make_directory (dir target_path)
    opened ← attempt (files.open_file target_path)
    or_code (λ _. internal_code) opened
    closed ← attempt (files.close_file target_path)
    or_code (λ _. internal_code) closed

  unfoldable pub remove_mount_path : String → Eff S Code (Unit {0})
  unfolding after_remove
  remove_mount_path path = do answer ← attempt (files.remove path); after_remove answer

  -- The `switch` of `NodeStageVolume`.
  unfoldable pub stage : String → String → AccessType → Eff S Code (Unit {0})
  unfolding make_directory
  stage device staging no_access_type = raise invalid_argument_code
  stage device staging block_access = make_directory staging
  stage device staging (mount_access m) = do
    answer ← attempt (
        mounter.format_and_mount device staging
          (if str_eq m.fs_type "" then default_filesystem_type else m.fs_type) m.mount_flags)
    or_code node_host_error answer

  unfoldable pub node_stage_volume : Option StageRequest → Eff S Code (Unit {0})
  unfolding discover_device stage
  node_stage_volume request = given request λ req. do
    refuse_when (is_blank req.volume_id) invalid_argument_code
    refuse_when (is_blank req.staging_target_path) invalid_argument_code
    check (validate_volume_capability req.volume_capability)
    device ← discover_device req.volume_id (index req.publish_context device_path_key)
    stage device req.staging_target_path (access_of req.volume_capability)

  -- An unmount, and then the removal of the path.
  unfoldable pub unmount_and_remove : String → Eff S Code (Unit {0})
  unfolding remove_mount_path or_code
  unmount_and_remove path = do
    answer ← attempt (mounter.unmount path)
    or_code node_host_error answer
    remove_mount_path path

  unfoldable pub node_unstage_volume : Option UnstageRequest → Eff S Code (Unit {0})
  unfolding unmount_and_remove
  node_unstage_volume request = given request λ req. do
    refuse_when (is_blank req.volume_id) invalid_argument_code
    refuse_when (is_blank req.staging_target_path) invalid_argument_code
    unmount_and_remove req.staging_target_path

  -- The `switch` of `NodePublishVolume`.
  unfoldable pub publish : NodePublishRequest → AccessType → Eff S Code (Unit {0})
  unfolding discover_device create_block_target_file make_directory publish_options
  publish req no_access_type = raise invalid_argument_code
  publish req block_access = do
    device ← discover_device req.volume_id (index req.publish_context device_path_key)
    create_block_target_file req.target_path
    answer ← attempt (mounter.mount device req.target_path "" (publish_options req.readonly []))
    or_code node_host_error answer
  publish req (mount_access m) = do
    answer ← attempt (mounter.is_mount_point req.staging_target_path)
    staged ← or_code node_host_error answer
    refuse_when (not staged) failed_precondition_code
    make_directory req.target_path
    mounted ← attempt (
        mounter.mount req.staging_target_path req.target_path ""
          (publish_options req.readonly m.mount_flags))
    or_code node_host_error mounted

  unfoldable pub node_publish_volume : Option NodePublishRequest → Eff S Code (Unit {0})
  unfolding publish
  node_publish_volume request = given request λ req. do
    refuse_when (is_blank req.volume_id) invalid_argument_code
    refuse_when (is_blank req.staging_target_path) invalid_argument_code
    refuse_when (is_blank req.target_path) invalid_argument_code
    check (validate_volume_capability req.volume_capability)
    refuse_when (is_read_only_mode req.volume_capability && not req.readonly) invalid_argument_code
    publish req (access_of req.volume_capability)

  unfoldable pub node_unpublish_volume : Option NodeUnpublishRequest → Eff S Code (Unit {0})
  unfolding unmount_and_remove
  node_unpublish_volume request = given request λ req. do
    refuse_when (is_blank req.volume_id) invalid_argument_code
    refuse_when (is_blank req.target_path) invalid_argument_code
    unmount_and_remove req.target_path
