-- ===== src/Driver/Identity.antt =====
-- internal/driver/identity.go: the Identity service, and the constructor's checks of the settings.
use t_cloud_public_csi_drive.Common.{String, Bool, true, List, [], ◌∷◌, if◌then◌else◌, str_eq}
use t_cloud_public_csi_drive.Eff.{Result, ok, err}
use t_cloud_public_csi_drive.Errors.{Err, plain}
use t_cloud_public_csi_drive.Config.{Settings}
use t_cloud_public_csi_drive.Driver.Csi.{Code, invalid_argument_code}

pub record IdentityService : Type 0 where
  pub name : String
  pub version : String

pub record PluginInfo : Type 0 where
  pub name : String
  pub vendor_version : String

pub data PluginCapability : Type 0 where
  controller_service volume_accessibility_constraints : PluginCapability

-- `NewIdentityService`, for settings and a logger that are not nil.
unfoldable pub new_identity_service : Settings → Result Err IdentityService
new_identity_service c =
    if str_eq c.driver_name ""
    then err plain
    else if str_eq c.version ""
    then err plain
    else ok (record { name = c.driver_name; version = c.version })

-- `GetPluginInfo`
unfoldable pub get_plugin_info : IdentityService → Result Code PluginInfo
get_plugin_info s =
    if str_eq s.name ""
    then err invalid_argument_code
    else if str_eq s.version ""
    then err invalid_argument_code
    else ok (record { name = s.name; vendor_version = s.version })

-- `GetPluginCapabilities`
abbrev pub plugin_capabilities : List PluginCapability
plugin_capabilities = controller_service ∷ volume_accessibility_constraints ∷ []

-- `Probe`
abbrev pub probe : Bool
probe = true
