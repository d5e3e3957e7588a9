-- ===== src/Evs/Types.antt =====
-- internal/evs/volume.go and attachment.go: the driver's records, and the SDK's records that the
-- client reads.
use t_cloud_public_csi_drive.Common.{String, Bool, List, Dict}
use t_cloud_public_csi_drive.Common.Int.{ℤ}

pub record Volume : Type 0 where
  pub id : String
  pub name : String
  pub status : String
  pub size : ℤ
  pub availability_zone : String
  pub volume_type : String
  pub metadata : Dict
  pub tags : Dict
  pub multiattach : Bool

pub record CreateVolumeOpts : Type 0 where
  pub availability_zone : String
  pub volume_type : String
  pub name : String
  pub description : String
  pub size : ℤ
  pub multiattach : Bool

pub record ListVolumeOpts : Type 0 where
  pub name : String
  pub status : String
  pub availability_zone : String
  pub id : String
  pub limit : ℤ
  pub offset : ℤ

pub record DiscoverVolumeOpts : Type 0 where
  pub name : String
  pub availability_zone : String
  pub volume_type : String
  pub min_size_gib : ℤ
  pub max_size_gib : ℤ

pub record Attachment : Type 0 where
  pub volume_id : String
  pub server_id : String
  pub device_name : String

-- The SDK's `v3volumes.CreateOpts`, as far as the client fills it.
pub record CreateRequest : Type 0 where
  pub availability_zone : String
  pub volume_type : String
  pub name : String
  pub description : String
  pub size : ℤ
  pub multiattach : Bool
  pub tags : Dict

-- The SDK's `volumes.Attachment` and `disk.VolumeAttachment`, as far as the client reads them.
pub record SdkAttachment : Type 0 where
  pub volume_id : String
  pub server_id : String
  pub device : String

-- The SDK's `v3volumes.Volume`.
pub record V3Volume : Type 0 where
  pub id : String
  pub name : String
  pub status : String
  pub size : ℤ
  pub availability_zone : String
  pub volume_type : String
  pub metadata : Dict
  pub tags : Dict
  pub multiattach : Bool
  pub attachments : List SdkAttachment

-- The SDK's `cloudvolumes.VolumeMetadata`.
pub record V2Metadata : Type 0 where
  pub system_cmk_id : String
  pub system_encrypted : String
  pub full_clone : String
  pub hw_passthrough : String
  pub order_id : String
  pub resource_type : String
  pub resource_spec_code : String
  pub read_only : String
  pub attached_mode : String

-- The SDK's `cloudvolumes.Volume`.
pub record V2Volume : Type 0 where
  pub id : String
  pub name : String
  pub status : String
  pub size : ℤ
  pub availability_zone : String
  pub volume_type : String
  pub metadata : V2Metadata
  pub tags : Dict
  pub multiattach : Bool

-- The status of a job of the volume or the compute service.
pub record JobStatus : Type 0 where
  pub status : String
  pub volume_id : String
