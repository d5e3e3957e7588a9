-- ===== src/Driver/Csi.antt =====
-- The messages of the CSI specification that the driver reads and writes, the interface that the
-- controller has of the cloud's client, and gRPC status codes.
use t_cloud_public_csi_drive.Common.{ℕ, String, Bool, Option, List, Dict}
use t_cloud_public_csi_drive.Common.Int.{ℤ}

-- `codes.Code`; the text of a status is left out.
pub data Code : Type 0 where
  canceled_code invalid_argument_code deadline_exceeded_code not_found_code : Code
  already_exists_code permission_denied_code failed_precondition_code aborted_code : Code
  out_of_range_code internal_code unavailable_code unauthenticated_code : Code

pub data AccessMode : Type 0 where
  mode_unknown single_node_writer single_node_reader_only : AccessMode
  multi_node_reader_only multi_node_single_writer multi_node_multi_writer : AccessMode
  single_node_single_writer single_node_multi_writer : AccessMode
  mode_other : ℕ → AccessMode

pub record MountVolume : Type 0 where
  pub fs_type : String
  pub mount_flags : List String

-- The `oneof access_type`.
pub data AccessType : Type 0 where
  no_access_type : AccessType
  block_access : AccessType
  mount_access : MountVolume → AccessType

pub record VolumeCapability : Type 0 where
  pub access_mode : Option AccessMode
  pub access_type : AccessType

pub record CapacityRange : Type 0 where
  pub required_bytes : ℤ
  pub limit_bytes : ℤ

-- A topology is its segments.
pub record TopologyRequirement : Type 0 where
  pub requisite : List Dict
  pub preferred : List Dict

-- `volume_content_source` is only tested for presence.
pub record CreateVolumeRequest : Type 0 where
  pub name : String
  pub capacity_range : Option CapacityRange
  pub volume_capabilities : List (Option VolumeCapability)
  pub parameters : Dict
  pub has_content_source : Bool
  pub accessibility_requirements : Option TopologyRequirement

pub record CsiVolume : Type 0 where
  pub volume_id : String
  pub capacity_bytes : ℤ
  pub accessible_topology : List Dict
  pub volume_context : Dict

pub record DeleteVolumeRequest : Type 0 where
  pub volume_id : String

pub record PublishRequest : Type 0 where
  pub volume_id : String
  pub node_id : String
  pub volume_capability : Option VolumeCapability
  pub readonly : Bool

pub record UnpublishRequest : Type 0 where
  pub volume_id : String
  pub node_id : String

pub record ValidateRequest : Type 0 where
  pub volume_id : String
  pub volume_context : Dict
  pub volume_capabilities : List (Option VolumeCapability)
  pub parameters : Dict

pub record Confirmed : Type 0 where
  pub volume_context : Dict
  pub volume_capabilities : List (Option VolumeCapability)
  pub parameters : Dict

pub record StageRequest : Type 0 where
  pub volume_id : String
  pub publish_context : Dict
  pub staging_target_path : String
  pub volume_capability : Option VolumeCapability

pub record UnstageRequest : Type 0 where
  pub volume_id : String
  pub staging_target_path : String

pub record NodePublishRequest : Type 0 where
  pub volume_id : String
  pub publish_context : Dict
  pub staging_target_path : String
  pub target_path : String
  pub volume_capability : Option VolumeCapability
  pub readonly : Bool

pub record NodeUnpublishRequest : Type 0 where
  pub volume_id : String
  pub target_path : String

-- `NodeGetInfoResponse`, with the segments of its topology.
pub record NodeInfo : Type 0 where
  pub node_id : String
  pub accessible_topology : Dict
