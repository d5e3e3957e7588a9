-- ===== src/Driver/Controller/Wiring.antt =====
-- cmd/t-cloud-csi-driver/main.go: the controller service over the client of internal/evs.
use t_cloud_public_csi_drive.Evs.Cloud.{Cloud, Context, History}
use t_cloud_public_csi_drive.Evs.Volume.{get_volume, create_volume}
use t_cloud_public_csi_drive.Evs.Listing.{discover_volume}
use t_cloud_public_csi_drive.Evs.Delete.{delete_volume}
use t_cloud_public_csi_drive.Evs.Attachment.Attach.{attach_volume}
use t_cloud_public_csi_drive.Evs.Attachment.Detach.{detach_volume}
use t_cloud_public_csi_drive.Driver.Controller.{EvsClient}

-- The client, for the context of one request.
abbrev pub evs_client : Cloud → Context → EvsClient History
evs_client cloud ctx = record {
  create_volume = create_volume cloud ctx;
  get_volume = get_volume cloud ctx;
  discover_volume = discover_volume cloud ctx;
  delete_volume = delete_volume cloud ctx;
  attach_volume = λ volume_id server_id. attach_volume cloud volume_id server_id ctx;
  detach_volume = λ volume_id server_id. detach_volume cloud volume_id server_id ctx;
}
