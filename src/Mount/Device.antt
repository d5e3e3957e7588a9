-- ===== src/Mount/Device.antt =====
-- internal/mount/mount.go: `DiscoverDevice`.
use t_cloud_public_csi_drive.Common.{
  String, Bool, true, false, not, Option, none, some, List, [], ◌∷◌, ◌++◌, map, if◌then◌else◌,
  str_eq,
}
use t_cloud_public_csi_drive.Path.{join}
use t_cloud_public_csi_drive.Eff.{pure, ◌>>=◌, ◌>>◌}
use t_cloud_public_csi_drive.Errors.{
  Err, invalid_input, device_not_found, device_identity_unverified, only,
}
use t_cloud_public_csi_drive.Host.{
  Host, HostContext, H, stat, eval_symlinks, ask, refuse_if, refuse_on, context_error,
}
use t_cloud_public_csi_drive.Mount.{LinuxMounter, serials, link_names, holds_device}

abbrev pub is_some : Option Err → Bool
is_some none = false
is_some (some _) = true

abbrev pub or_path : String → Option String → String
or_path path none = path
or_path path (some resolved) = resolved

abbrev pub is_nil : List String → Bool
is_nil [] = true
is_nil (_ ∷ _) = false

-- The links that can name a volume, in the order in which they are tried.
abbrev all_names : List String → List String
all_names [] = []
all_names (s ∷ rest) = link_names s ++ all_names rest

unfoldable pub candidate_links : LinuxMounter → String → List String
unfolding serials join
candidate_links m volume_id = map (join m.disk_by_id_dir) (all_names (serials volume_id))

module _ (host : Host) where
  unfoldable pub resolve_symlink : String → H String
  unfolding ask
  resolve_symlink path = ask (eval_symlinks path) (λ h. or_path path (host.resolved path h))

  -- The links that exist.
  unfoldable pub existing_links : List String → H (List String)
  existing_links [] = pure []
  existing_links (link ∷ rest) = do
    gone ← ask (stat link) (host.stat_err link)
    later ← existing_links rest
    pure (if is_some gone then later else link ∷ later)

  unfoldable pub serial_links : LinuxMounter → String → H (List String)
  unfolding existing_links candidate_links
  serial_links m volume_id = existing_links (candidate_links m volume_id)

  -- The loop that compares what each link names with the published device.
  unfoldable pub verify_links : String → List String → H (Unit {0})
  unfolding resolve_symlink
  verify_links published [] = pure tt
  verify_links published (link ∷ rest) = do
    named ← resolve_symlink link
    refuse_if (not (str_eq named published)) (only device_identity_unverified)
    verify_links published rest

  unfoldable pub discover_device : LinuxMounter → HostContext → String → String → H String
  unfolding serial_links verify_links
  discover_device m ctx volume_id published_path = do
    refuse_if (str_eq volume_id "") (only invalid_input)
    refuse_if (str_eq published_path "") (only invalid_input)
    stopped ← context_error host ctx
    refuse_on stopped
    refuse_if (not (holds_device m published_path)) (only invalid_input)
    gone ← ask (stat published_path) (host.stat_err published_path)
    refuse_if (is_some gone) (only device_not_found)
    published ← resolve_symlink published_path
    links ← serial_links m volume_id
    refuse_if (is_nil links) (only device_not_found)
    verify_links published links
    pure published
