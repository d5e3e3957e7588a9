-- ===== src/Driver/Node/Quiet.antt =====
-- internal/driver/node.go over internal/mount/mount.go: which handlers make a filesystem.
use t_cloud_public_csi_drive.Common.{
  refl, Bool, true, false, Option, none, some, String, List, [], ◌∷◌,
}
use t_cloud_public_csi_drive.Eff.{Result, ok, err}
use t_cloud_public_csi_drive.Eff.Rules.{Moves, Moves-pure, Moves-bind}
use t_cloud_public_csi_drive.Errors.{Err}
use t_cloud_public_csi_drive.Host.{Host, HostContext, HostHistory}
use t_cloud_public_csi_drive.Mount.{LinuxMounter}
use t_cloud_public_csi_drive.Mount.Device.{
  existing_links, serial_links, resolve_symlink, verify_links, discover_device,
}
use t_cloud_public_csi_drive.Mount.Quiet.{
  unmount-quiet, mount_once-quiet, remount_bind-quiet, is_mount_point-quiet, Same, Same-refl,
  Same-trans, Moves-ask, Moves-refuse_if, quiet_rules,
}
use t_cloud_public_csi_drive.Driver.Csi.{
  NodePublishRequest, UnstageRequest, NodeUnpublishRequest, Code, AccessType, no_access_type,
  block_access, mount_access,
}
use t_cloud_public_csi_drive.Driver.Controller.{refuse_when, check}
use t_cloud_public_csi_drive.Driver.Node.{
  remove_mount_path, after_remove, create_block_target_file, unmount_and_remove, publish,
  node_publish_volume, node_unstage_volume, node_unpublish_volume, Files,
  discover_device as published_device, or_code, make_directory,
}
use t_cloud_public_csi_drive.Driver.Node.Wiring.{linux_mounter}
use t_cloud_public_csi_drive.Mount.Operations.{mount_unless, mount_once, mount}

-- No call of `os` runs a command that makes a filesystem.
pub record QuietFiles (files : Files HostHistory) : Type 0 where
  pub mkdir_all : (path : String) → Moves Same (files.mkdir_all path)
  pub open_file : (path : String) → Moves Same (files.open_file path)
  pub close_file : (path : String) → Moves Same (files.close_file path)
  pub remove : (path : String) → Moves Same (files.remove path)

pub Moves-refuse_when : (b : Bool) (code : Code) → Moves Same (refuse_when b code)
Moves-refuse_when true code = search quiet_rules depth 20
Moves-refuse_when false code = search quiet_rules depth 20

pub Moves-check : (o : Option Code) → Moves Same (check o)
Moves-check none = search quiet_rules depth 20
Moves-check (some code) = search quiet_rules depth 20

pub or_code-quiet :
    {A : Type 0} (code : Err → Code) (r : Result Err A) → Moves Same (or_code code r)
unfolding or_code
or_code-quiet code (ok a) = search quiet_rules depth 20
or_code-quiet code (err e) = search quiet_rules depth 20

after_remove-quiet : (r : Result Err (Unit {0})) → Moves Same (after_remove r)
unfolding after_remove
after_remove-quiet (ok _) = search quiet_rules depth 20
after_remove-quiet (err e) = search quiet_rules depth 20

module _ (host : Host) where
  existing_links-quiet : (links : List String) → Moves Same (existing_links host links)
  unfolding existing_links
  existing_links-quiet [] = search quiet_rules depth 20
  existing_links-quiet (link ∷ rest) = Moves-bind Same-trans Same-refl (Moves-ask _ _ refl) (λ _.
      Moves-bind Same-trans Same-refl (existing_links-quiet rest) (λ _. Moves-pure Same-refl _))

  verify_links-quiet :
      (device : String) (links : List String) → Moves Same (verify_links host device links)
  unfolding verify_links resolve_symlink
  verify_links-quiet device [] = search quiet_rules depth 20
  verify_links-quiet device (link ∷ rest) =
      Moves-bind Same-trans Same-refl (Moves-ask _ _ refl) (λ _.
        Moves-bind Same-trans Same-refl (Moves-refuse_if _ _) (λ _. verify_links-quiet device rest))

  discover_device-quiet :
      (m : LinuxMounter) (ctx : HostContext) (volume_id published : String)
      → Moves Same (discover_device host m ctx volume_id published)
  unfolding discover_device serial_links resolve_symlink
  discover_device-quiet m ctx volume_id published =
      search (quiet_rules, existing_links-quiet, verify_links-quiet) depth 30

  mount-quiet :
      (ctx : HostContext) (source target fs_type : String) (options : List String)
      → Moves Same (mount host ctx source target fs_type options)
  unfolding mount mount_once
  mount-quiet ctx source target fs_type options =
      search (quiet_rules, is_mount_point-quiet, unless-quiet) depth 20
    where
      unless-quiet :
          (mounted : Bool)
          → Moves Same (mount_unless host ctx source target fs_type options mounted)
      unless-quiet false = mount_once-quiet host ctx source target fs_type options
      unless-quiet true = search (quiet_rules, remount_bind-quiet) depth 20

ruleset node_rules = (quiet_rules, Moves-refuse_when, Moves-check, or_code-quiet)

module _ (host : Host) (m : LinuxMounter) (ctx : HostContext) (files : Files HostHistory) where
  pub device-quiet :
      (volume_id published : String)
      → Moves Same (published_device (linux_mounter host m ctx) files volume_id published)
  unfolding published_device
  device-quiet volume_id published =
      search (quiet_rules, Moves-refuse_when, discover_device-quiet, or_code-quiet) depth 20

  module _ (quiet : QuietFiles files) where
    pub make_directory-quiet :
        (path : String) → Moves Same (make_directory (linux_mounter host m ctx) files path)
    unfolding make_directory
    make_directory-quiet path = search (node_rules, quiet.mkdir_all) depth 20

    create_block_target_file-quiet :
        (path : String)
        → Moves Same (create_block_target_file (linux_mounter host m ctx) files path)
    unfolding create_block_target_file
    create_block_target_file-quiet path =
        search (node_rules, make_directory-quiet, quiet.open_file, quiet.close_file) depth 20

    unmount_and_remove-quiet :
        (path : String) → Moves Same (unmount_and_remove (linux_mounter host m ctx) files path)
    unfolding unmount_and_remove remove_mount_path
    unmount_and_remove-quiet path =
        search (node_rules, unmount-quiet, quiet.remove, after_remove-quiet) depth 20

    publish-quiet :
        (req : NodePublishRequest) (access : AccessType)
        → Moves Same (publish (linux_mounter host m ctx) files req access)
    unfolding publish
    publish-quiet req no_access_type = search node_rules depth 20
    publish-quiet req block_access =
        search (node_rules, device-quiet, create_block_target_file-quiet, mount-quiet) depth 20
    publish-quiet req (mount_access asked) =
        search (node_rules, is_mount_point-quiet, make_directory-quiet, mount-quiet) depth 20

    -- Whatever the host answers, where the calls of `os` run no command that makes a filesystem:
    -- `NodePublishVolume`, `NodeUnstageVolume` and `NodeUnpublishVolume` make no filesystem, on any
    -- branch. So only a staging formats a device.
    pub handlers-quiet :
        ((request : Option NodePublishRequest)
          → Moves Same (node_publish_volume (linux_mounter host m ctx) files request))
        × ((request : Option UnstageRequest)
            → Moves Same (node_unstage_volume (linux_mounter host m ctx) files request))
        × ((request : Option NodeUnpublishRequest)
            → Moves Same (node_unpublish_volume (linux_mounter host m ctx) files request))
    unfolding node_publish_volume node_unstage_volume node_unpublish_volume
    handlers-quiet = (publishes, unstages, unpublishes)
      where
        publishes :
            (request : Option NodePublishRequest)
            → Moves Same (node_publish_volume (linux_mounter host m ctx) files request)
        publishes none = search node_rules depth 20
        publishes (some req) = search (node_rules, publish-quiet) depth 20

        unstages :
            (request : Option UnstageRequest)
            → Moves Same (node_unstage_volume (linux_mounter host m ctx) files request)
        unstages none = search node_rules depth 20
        unstages (some req) = search (node_rules, unmount_and_remove-quiet) depth 20

        unpublishes :
            (request : Option NodeUnpublishRequest)
            → Moves Same (node_unpublish_volume (linux_mounter host m ctx) files request)
        unpublishes none = search node_rules depth 20
        unpublishes (some req) = search (node_rules, unmount_and_remove-quiet) depth 20
