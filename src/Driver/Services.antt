-- ===== src/Driver/Services.antt =====
-- internal/driver/controller.go and node.go: the constructors' checks and the constant answers.
use t_cloud_public_csi_drive.Common.{List, [], ◌∷◌, if◌then◌else◌, str_eq}
use t_cloud_public_csi_drive.Eff.{Result, ok, err}
use t_cloud_public_csi_drive.Errors.{Err, plain}
use t_cloud_public_csi_drive.Config.{Settings}

pub data ControllerCapability : Type 0 where
  create_delete_volume publish_unpublish_volume : ControllerCapability

pub data NodeCapability : Type 0 where
  stage_unstage_volume : NodeCapability

-- `ControllerGetCapabilities`
abbrev pub controller_capabilities : List ControllerCapability
controller_capabilities = create_delete_volume ∷ publish_unpublish_volume ∷ []

-- `NodeGetCapabilities`
abbrev pub node_capabilities : List NodeCapability
node_capabilities = stage_unstage_volume ∷ []

-- `NewNodeService`, for a mounter, settings and a logger that are not nil; the service holds the settings.
unfoldable pub new_node_service : Settings → Result Err Settings
new_node_service c =
    if str_eq c.node_id ""
    then err plain
    else if str_eq c.availability_zone ""
    then err plain
    else ok c
