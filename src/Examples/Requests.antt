-- ===== src/Examples/Requests.antt =====
-- Tests of the handlers of internal/driver/controller.go.
use t_cloud_public_csi_drive.Path.{clean}
use t_cloud_public_csi_drive.Common.{
  true, false, ◌≡◌, refl, ◌↔◌, false, none, some, [], ◌∷◌, keys, index, sort, text_leb,
}
use t_cloud_public_csi_drive.Common.Int.{pos}
use t_cloud_public_csi_drive.Text.{cut_prefix, trim_space, is_blank, to_lower}
use t_cloud_public_csi_drive.Eff.{ok, ◌>>=◌}
use t_cloud_public_csi_drive.Eff.Rules.{Yields}
use t_cloud_public_csi_drive.Evs.Cloud.{caller}
use t_cloud_public_csi_drive.Evs.Cloud.Effects.{Spends}
use t_cloud_public_csi_drive.Evs.Cloud.Outcomes.{Any}
use t_cloud_public_csi_drive.Driver.Csi.{
  single_node_writer, mount_access, VolumeCapability, CreateVolumeRequest, DeleteVolumeRequest,
  PublishRequest, UnpublishRequest, ValidateRequest,
}
use t_cloud_public_csi_drive.Driver.Capability.{
  is_supported_filesystem_type, validate_volume_capability, validate_capabilities,
  validate_parameters,
}
use t_cloud_public_csi_drive.Driver.Capacity.{resolve_size_gib}
use t_cloud_public_csi_drive.Driver.Request.{is_device_node_path, pick_availability_zone}
use t_cloud_public_csi_drive.Driver.Controller.{
  validate_create, create_volume, delete_volume, controller_publish_volume,
  controller_unpublish_volume, validate_volume_capabilities,
}
use t_cloud_public_csi_drive.Driver.Controller.Wiring.{evs_client}
use t_cloud_public_csi_drive.Driver.Controller.Handlers.{create_handler-Spends, handlers-Spends}
use t_cloud_public_csi_drive.Driver.Controller.Provision.{Asks, validate_create-iff-Asks}
use t_cloud_public_csi_drive.Driver.Controller.Publication.{
  IsPublished, controller_publish-IsPublished,
}
use t_cloud_public_csi_drive.Examples.{sample_cloud}

abbrev mounted : VolumeCapability
mounted = record {
  access_mode = some single_node_writer;
  access_type = mount_access (record { fs_type = "XFS"; mount_flags = [] });
}

abbrev creation : CreateVolumeRequest
creation = record {
  name = "pvc-1";
  capacity_range = none;
  volume_capabilities = some mounted ∷ [];
  parameters =
      ("type", "SSD")
      ∷ ("csi.storage.k8s.io/pvc/name", "data")
      ∷ ("availability_zone", "eu-de-01")
      ∷ [];
  has_content_source = false;
  accessibility_requirements = none;
}

abbrev deletion : DeleteVolumeRequest
deletion = record { volume_id = "vol-1" }

abbrev publication : PublishRequest
publication = record {
  volume_id = "vol-1";
  node_id = "srv-1";
  volume_capability = some mounted;
  readonly = false;
}

abbrev withdrawal : UnpublishRequest
withdrawal = record { volume_id = "vol-1"; node_id = "srv-1" }

abbrev validation : ValidateRequest
validation = record {
  volume_id = "vol-1";
  volume_context = [];
  volume_capabilities = some mounted ∷ [];
  parameters = [];
}

create_handler-Spends_example :
    Spends 1 (create_volume (evs_client sample_cloud caller) (some creation))
create_handler-Spends_example = create_handler-Spends sample_cloud caller (some creation)

handlers-Spends_example :
    Spends 1 (delete_volume (evs_client sample_cloud caller) (some deletion))
    × Spends 1 (controller_publish_volume (evs_client sample_cloud caller) (some publication))
    × Spends 1 (controller_unpublish_volume (evs_client sample_cloud caller) (some withdrawal))
    × Spends 0 (validate_volume_capabilities (evs_client sample_cloud caller) (some validation))
handlers-Spends_example =
    handlers-Spends sample_cloud caller (some deletion) (some publication) (some withdrawal)
      (some validation)

controller_publish-IsPublished_example :
    Yields
      (IsPublished publication)
      Any
      (controller_publish_volume (evs_client sample_cloud caller) (some publication))
controller_publish-IsPublished_example =
    controller_publish-IsPublished sample_cloud caller publication

validate_create_test : validate_create creation tt ≡ (ok ("SSD", "eu-de-01", pos 10), tt)
unfolding validate_create ◌>>=◌ is_blank trim_space validate_capabilities validate_volume_capability
    is_supported_filesystem_type to_lower validate_parameters sort text_leb keys index
    pick_availability_zone resolve_size_gib
validate_create_test = refl

validate_create-iff-Asks_example :
    (validate_create creation tt ≡ (ok ("SSD", "eu-de-01", pos 10), tt))
    ↔ Asks creation "SSD" "eu-de-01" (pos 10)
validate_create-iff-Asks_example = validate_create-iff-Asks creation "SSD" "eu-de-01" (pos 10) tt

device_test : is_device_node_path "/dev/vdb" ≡ true
unfolding is_device_node_path cut_prefix clean
device_test = refl

device_up_test : is_device_node_path "/dev/../etc/passwd" ≡ false
unfolding is_device_node_path cut_prefix clean
device_up_test = refl
