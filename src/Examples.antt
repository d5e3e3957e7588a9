-- ===== src/Examples.antt =====
-- Concrete clouds, volumes and requests, for the tests.
pub mod Volumes
pub mod Attachments
pub mod Requests
pub mod Sizes
pub mod Hosts
pub mod Processes
pub mod Logs
pub mod Transports
pub mod Starts
pub mod Staging
use t_cloud_public_csi_drive.Common.{
  ℕ, zero, suc, ◌+◌, ◌<◌, ◌≡◌, ◌≢◌, refl, Bool, true, false, String, Option, none, some, List, [],
  ◌∷◌, take, drop, length, any, ltb, str_eq, if◌then◌else◌, arith,
}
use t_cloud_public_csi_drive.Common.Int.{pos, pos_part}
use t_cloud_public_csi_drive.Eff.{Result, ok, err}
use t_cloud_public_csi_drive.Errors.{Err, http_default, deadline_exceeded, only}
use t_cloud_public_csi_drive.Evs.Types.{
  Volume, SdkAttachment, V2Metadata, V2Volume, V3Volume, JobStatus,
}
use t_cloud_public_csi_drive.Evs.Cloud.{
  Call, delete_request, attach_request, caller, timeout, Context, History, Cloud,
}
use t_cloud_public_csi_drive.Evs.Cloud.Polling.{ticks, Expires}

abbrev pub sample_volume : V3Volume
sample_volume = record {
  id = "vol-1";
  name = "pvc-1";
  status = "available";
  size = pos 12;
  availability_zone = "eu-de-01";
  volume_type = "SSD";
  metadata = [];
  tags = ("managed-by", "evs-csi-t-cloud-wilaris-dev") ∷ [];
  multiattach = false;
  attachments = [];
}

abbrev no_metadata : V2Metadata
no_metadata = record {
  system_cmk_id = "";
  system_encrypted = "0";
  full_clone = "";
  hw_passthrough = "";
  order_id = "";
  resource_type = "";
  resource_spec_code = "";
  read_only = "";
  attached_mode = "";
}

abbrev pub listed_volume : String → V2Volume
listed_volume id = record {
  id = id;
  name = "pvc-1";
  status = "available";
  size = pos 12;
  availability_zone = "eu-de-01";
  volume_type = "SSD";
  metadata = no_metadata;
  tags = ("managed-by", "evs-csi-t-cloud-wilaris-dev") ∷ [];
  multiattach = false;
}

abbrev is_delete : Call → Bool
is_delete (delete_request _) = true
is_delete _ = false

abbrev is_attach : Call → Bool
is_attach (attach_request _ _) = true
is_attach _ = false

-- A context ends when more periods have passed than its timeout has seconds.
unfoldable pub timed_out : Context → History → Option Err
unfolding ticks
timed_out caller h = none
timed_out (timeout outer n h0) h =
    if ltb (ticks h0 + n) (ticks h) then some (only deadline_exceeded) else none

abbrev finished_job : JobStatus
finished_job = record { status = "SUCCESS"; volume_id = "vol-1" }

-- A cloud with one volume, which can be attached and deleted, and a listing.
abbrev pub cloud_with : List V2Volume → Cloud
cloud_with listing = record {
  context_err = timed_out;
  endpoint_path = some "/v3/project";
  create = λ _ _. ok "job-1";
  delete = λ _ _. ok tt;
  attach = λ _ _ _. ok (some "job-2");
  detach = λ _ _ _ _. ok (some "job-3");
  get = λ _ h. if any is_delete h then err (http_default 404 ∷ []) else ok sample_volume;
  list = λ opts _. ok (take 100 (drop (pos_part opts.offset) listing));
  job = λ _ _ _. ok finished_job;
  server_job = λ _ _. ok finished_job;
  attachments = λ _ h.
      if any is_attach h
      then ok (some (record { volume_id = "vol-1"; server_id = "srv-1"; device = "/dev/vdb" } ∷ []))
      else ok none;
}

abbrev pub sample_cloud : Cloud
sample_cloud = cloud_with (listed_volume "vol-2" ∷ listed_volume "vol-1" ∷ [])

-- The same for ever: no context ends.
abbrev pub steady_cloud : List V2Volume → Cloud
steady_cloud listing = record (cloud_with listing) { context_err = λ _ _. none }

pub sample_cloud-Expires : Expires sample_cloud
unfolding timed_out
sample_cloud-Expires = record { ends = λ outer n h0 h lt e. ground arith }
