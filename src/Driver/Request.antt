-- ===== src/Driver/Request.antt =====
-- internal/driver/controller.go: `pickAvailabilityZone`, `isDeviceNodePath`, `toGRPCError` and
-- `formatCreateVolumeResponse`.
pub mod Codes
pub mod Devices
use t_cloud_public_csi_drive.Common.{
  Bool, false, not, ◌&&◌, Option, none, some, String, List, [], ◌∷◌, if◌then◌else◌, str_eq, Dict,
  lookup,
}
use t_cloud_public_csi_drive.Text.{trim_space, is_blank, cut_prefix}
use t_cloud_public_csi_drive.Path.{clean}
use t_cloud_public_csi_drive.Errors.{
  Err, errors_is, not_found, invalid_argument, conflict, unauthenticated, permission_denied,
  unavailable, canceled, deadline_exceeded,
}
use t_cloud_public_csi_drive.Evs.Types.{Volume}
use t_cloud_public_csi_drive.Driver.Csi.{
  Code, canceled_code, invalid_argument_code, deadline_exceeded_code, not_found_code,
  permission_denied_code, internal_code, unavailable_code, unauthenticated_code,
  TopologyRequirement, CsiVolume,
}
use t_cloud_public_csi_drive.Driver.Capability.{param_availability_zone}
use t_cloud_public_csi_drive.Driver.Capacity.{mul_gib}

abbrev pub topology_zone_key : String
topology_zone_key = "topology.kubernetes.io/zone"

abbrev pub dev_dir_prefix : String
dev_dir_prefix = "/dev/"

-- `zone, ok := m[key]; ok && strings.TrimSpace(zone) != ""`, and then the trimmed zone.
abbrev pub named_zone : Option String → Option String
named_zone none = none
named_zone (some zone) = if is_blank zone then none else some (trim_space zone)

-- A loop over topologies that returns the first zone.
unfoldable pub first_zone : List Dict → Option String
first_zone [] = none
first_zone (top ∷ rest) = elim (named_zone (lookup topology_zone_key top)) [
  | none ↦ first_zone rest
  | some zone ↦ some zone
]

abbrev pub or_else : Option String → Option String → Option String
or_else (some z) o = some z
or_else none o = o

abbrev pub topology_zone : Option TopologyRequirement → Option String
topology_zone none = none
topology_zone (some top) = or_else (first_zone top.preferred) (first_zone top.requisite)

abbrev pub zone_or_empty : Option String → String
zone_or_empty none = ""
zone_or_empty (some z) = z

unfoldable pub pick_availability_zone : Option TopologyRequirement → Dict → String
unfolding first_zone
pick_availability_zone top_req params =
    zone_or_empty
      (or_else (topology_zone top_req) (named_zone (lookup param_availability_zone params)))

unfoldable pub is_device_node_path : String → Bool
is_device_node_path path = elim (cut_prefix path dev_dir_prefix) [
  | none ↦ false
  | some name ↦ not (str_eq name "") && str_eq (clean path) path
]

-- The code of the status that `toGRPCError` makes of an error.
unfoldable pub to_grpc_error : Code → Err → Code
to_grpc_error conflict_code e =
    if errors_is e not_found
    then not_found_code
    else if errors_is e invalid_argument
    then invalid_argument_code
    else if errors_is e conflict
    then conflict_code
    else if errors_is e unauthenticated
    then unauthenticated_code
    else if errors_is e permission_denied
    then permission_denied_code
    else if errors_is e unavailable
    then unavailable_code
    else if errors_is e canceled
    then canceled_code
    else if errors_is e deadline_exceeded
    then deadline_exceeded_code
    else internal_code

unfoldable pub format_create_volume_response : Volume → CsiVolume
format_create_volume_response vol = record {
  volume_id = vol.id;
  capacity_bytes = mul_gib vol.size;
  accessible_topology = ((topology_zone_key, vol.availability_zone) ∷ []) ∷ [];
  volume_context = [];
}
