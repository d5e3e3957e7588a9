-- ===== src/Driver/Controller.antt =====
-- internal/driver/controller.go: the handlers of the Controller service, over any client of the cloud.
pub mod Wiring
pub mod Handlers
pub mod Provision
pub mod Publication
use t_cloud_public_csi_drive.Common.{
  Bool, true, false, Option, none, some, String, List, [], ◌∷◌, if◌then◌else◌, str_eq, Dict, index,
}
use t_cloud_public_csi_drive.Common.Int.{ℤ}
use t_cloud_public_csi_drive.Text.{trim_space, is_blank}
use t_cloud_public_csi_drive.Eff.{Result, ok, err, Eff, pure, raise, lift, attempt, ◌>>=◌, ◌>>◌}
use t_cloud_public_csi_drive.Errors.{Err, errors_is, not_found, not_owned}
use t_cloud_public_csi_drive.Evs.Types.{Volume, CreateVolumeOpts, DiscoverVolumeOpts, Attachment}
use t_cloud_public_csi_drive.Driver.Csi.{
  Code, invalid_argument_code, already_exists_code, failed_precondition_code, aborted_code,
  internal_code, CreateVolumeRequest, CsiVolume, DeleteVolumeRequest, PublishRequest,
  UnpublishRequest, ValidateRequest, Confirmed,
}
use t_cloud_public_csi_drive.Driver.Capability.{
  param_volume_type, validate_volume_capability, validate_capabilities, validate_parameters,
}
use t_cloud_public_csi_drive.Driver.Capacity.{resolve_size_gib, limit_size_gib}
use t_cloud_public_csi_drive.Driver.Request.{
  pick_availability_zone, is_device_node_path, to_grpc_error, format_create_volume_response,
}

-- `EVSClient`, with the state that its operations change.
pub record EvsClient (S : Type 0) : Type 0 where
  pub create_volume : CreateVolumeOpts → Eff S Err Volume
  pub get_volume : String → Eff S Err Volume
  pub discover_volume : DiscoverVolumeOpts → Eff S Err Volume
  pub delete_volume : String → Eff S Err (Unit {0})
  pub attach_volume : String → String → Eff S Err (Option Attachment)
  pub detach_volume : String → String → Eff S Err (Unit {0})

abbrev pub device_path_key : String
device_path_key = "devicePath"

abbrev pub is_nil {ℓ} : {A : Type ℓ} → List A → Bool
is_nil [] = true
is_nil (_ ∷ _) = false

abbrev pub discover_opts : CreateVolumeRequest → String → String → ℤ → DiscoverVolumeOpts
discover_opts req vol_type zone size = record {
  name = req.name;
  availability_zone = zone;
  volume_type = vol_type;
  min_size_gib = size;
  max_size_gib = limit_size_gib req.capacity_range;
}

abbrev pub create_opts : CreateVolumeRequest → String → String → ℤ → CreateVolumeOpts
create_opts req vol_type zone size = record {
  availability_zone = zone;
  volume_type = vol_type;
  name = req.name;
  description = "";
  size = size;
  multiattach = false;
}

-- `Confirmed`, or none with a message.
unfoldable pub confirm : ValidateRequest → Option Confirmed
confirm req = elim (validate_capabilities req.volume_capabilities) [
  | some _ ↦ none
  | none ↦
      if is_nil req.volume_context
      then elim (validate_parameters req.parameters) [
        | some _ ↦ none
        | none ↦ some (record {
          volume_context = req.volume_context;
          volume_capabilities = req.volume_capabilities;
          parameters = req.parameters;
        })
      ]
      else none
]

module _ {S : Type 0} where
  abbrev pub refuse_when : Bool → Code → Eff S Code (Unit {0})
  refuse_when true code = raise code
  refuse_when false code = pure tt

  -- A check that returns its status.
  abbrev pub check : Option Code → Eff S Code (Unit {0})
  check none = pure tt
  check (some code) = raise code

  -- A nil request is refused.
  abbrev pub given : {R A : Type 0} → Option R → (R → Eff S Code A) → Eff S Code A
  given none handler = raise invalid_argument_code
  given (some req) handler = handler req

  -- The status of a failure that `toGRPCError` maps.
  abbrev pub mapped : {A : Type 0} → Code → Result Err A → Eff S Code A
  mapped conflict_code (ok a) = pure a
  mapped conflict_code (err e) = raise (to_grpc_error conflict_code e)

  -- What `CreateVolume` reads from a valid request: volume type, zone and size.
  unfoldable pub validate_create : CreateVolumeRequest → Eff S Code (String × String × ℤ)
  validate_create req = do
    refuse_when (is_blank req.name) invalid_argument_code
    refuse_when (is_nil req.volume_capabilities) invalid_argument_code
    check (validate_capabilities req.volume_capabilities)
    refuse_when req.has_content_source invalid_argument_code
    check (validate_parameters req.parameters)
    let vol_type = trim_space (index req.parameters param_volume_type)
    refuse_when (str_eq vol_type "") invalid_argument_code
    let zone = pick_availability_zone req.accessibility_requirements req.parameters
    refuse_when (str_eq zone "") invalid_argument_code
    size ← lift (resolve_size_gib req.capacity_range)
    pure (vol_type, zone, size)

  unfoldable pub after_delete : Result Err (Unit {0}) → Eff S Code (Unit {0})
  after_delete (ok _) = pure tt
  after_delete (err e) =
      if errors_is e not_found
      then pure tt
      else if errors_is e not_owned
      then raise failed_precondition_code
      else raise (to_grpc_error failed_precondition_code e)

  -- The publish context of an attachment with a usable device path.
  unfoldable pub publish_context : Option Attachment → Eff S Code Dict
  publish_context none = raise internal_code
  publish_context (some a) =
      if is_device_node_path a.device_name
      then pure ((device_path_key, a.device_name) ∷ [])
      else raise internal_code

module _ {S : Type 0} (client : EvsClient S) where
  -- `CreateVolume` after the discovery.
  unfoldable pub after_discovery : CreateVolumeOpts → Result Err Volume → Eff S Code CsiVolume
  after_discovery opts (ok existing) = pure (format_create_volume_response existing)
  after_discovery opts (err e) =
      if errors_is e not_found
      then (do
        answer ← attempt (client.create_volume opts)
        created ← mapped already_exists_code answer
        pure (format_create_volume_response created))
      else raise (to_grpc_error already_exists_code e)

  unfoldable pub provision : CreateVolumeRequest → String → String → ℤ → Eff S Code CsiVolume
  unfolding after_discovery
  provision req vol_type zone size = do
    found ← attempt (client.discover_volume (discover_opts req vol_type zone size))
    after_discovery (create_opts req vol_type zone size) found

  unfoldable pub create_volume : Option CreateVolumeRequest → Eff S Code CsiVolume
  unfolding validate_create provision
  create_volume request =
      given request
        λ req. do (vol_type, zone, size) ← validate_create req; provision req vol_type zone size

  unfoldable pub delete_volume : Option DeleteVolumeRequest → Eff S Code (Unit {0})
  unfolding after_delete
  delete_volume request = given request λ req. do
    refuse_when (is_blank req.volume_id) invalid_argument_code
    answer ← attempt (client.delete_volume req.volume_id)
    after_delete answer

  unfoldable pub controller_publish_volume : Option PublishRequest → Eff S Code Dict
  unfolding publish_context
  controller_publish_volume request = given request λ req. do
    refuse_when (is_blank req.volume_id) invalid_argument_code
    refuse_when (is_blank req.node_id) invalid_argument_code
    check (validate_volume_capability req.volume_capability)
    refuse_when req.readonly invalid_argument_code
    answer ← attempt (client.attach_volume req.volume_id req.node_id)
    attachment ← mapped failed_precondition_code answer
    publish_context attachment

  unfoldable pub controller_unpublish_volume : Option UnpublishRequest → Eff S Code (Unit {0})
  controller_unpublish_volume request = given request λ req. do
    refuse_when (is_blank req.volume_id) invalid_argument_code
    refuse_when (is_blank req.node_id) invalid_argument_code
    answer ← attempt (client.detach_volume req.volume_id req.node_id)
    mapped aborted_code answer

  unfoldable pub validate_volume_capabilities :
      Option ValidateRequest → Eff S Code (Option Confirmed)
  unfolding confirm
  validate_volume_capabilities request = given request λ req. do
    refuse_when (is_blank req.volume_id) invalid_argument_code
    refuse_when (is_nil req.volume_capabilities) invalid_argument_code
    answer ← attempt (client.get_volume req.volume_id)
    mapped aborted_code answer
    pure (confirm req)
