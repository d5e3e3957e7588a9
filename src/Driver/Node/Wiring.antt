-- ===== src/Driver/Node/Wiring.antt =====
-- cmd/t-cloud-csi-driver/main.go: the node service over the mounter of internal/mount.
use t_cloud_public_csi_drive.Host.{Host, HostContext, HostHistory}
use t_cloud_public_csi_drive.Mount.{LinuxMounter}
use t_cloud_public_csi_drive.Mount.Device.{discover_device}
use t_cloud_public_csi_drive.Mount.Operations.{is_mount_point, mount, unmount, format_and_mount}
use t_cloud_public_csi_drive.Driver.Node.{Mounter}

-- The mounter, for the context of one request.
abbrev pub linux_mounter : Host → LinuxMounter → HostContext → Mounter HostHistory
linux_mounter host m ctx = record {
  discover_device = discover_device host m ctx;
  format_and_mount = format_and_mount host ctx;
  mount = mount host ctx;
  unmount = unmount host ctx;
  is_mount_point = is_mount_point host ctx;
}
