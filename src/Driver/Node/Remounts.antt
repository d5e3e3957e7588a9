-- ===== src/Driver/Node/Remounts.antt =====
-- internal/driver/node.go over internal/mount/mount.go: what a publication leaves on the host.
use t_cloud_public_csi_drive.Common.{
  ap, ◌∙◌, ◌≡◌, ◌≢◌, refl, Bool, true, false, not, some, String, List, [], arith, index,
}
use t_cloud_public_csi_drive.Text.{trim_space}
use t_cloud_public_csi_drive.Eff.{Result, ok, err, Eff, attempt, ◌>>=◌}
use t_cloud_public_csi_drive.Eff.Rules.{
  Any, Good, Yields, EndsIn, EndsIn-raise, EndsIn-bind, EndsIn-given, EndsIn-map,
}
use t_cloud_public_csi_drive.Errors.{Err}
use t_cloud_public_csi_drive.Host.{Host, HostContext, HostHistory}
use t_cloud_public_csi_drive.Mount.{
  LinuxMounter, bind_flavor, contains, remount_options, options_of_flags,
}
use t_cloud_public_csi_drive.Mount.Operations.{is_mount_point, mount}
use t_cloud_public_csi_drive.Mount.Binding.{Remounted, mount-Remounted}
use t_cloud_public_csi_drive.Mount.Identity.{IsDeviceOf}
use t_cloud_public_csi_drive.Driver.Csi.{
  Code, MountVolume, AccessType, no_access_type, block_access, mount_access, NodePublishRequest,
}
use t_cloud_public_csi_drive.Driver.Controller.{device_path_key}
use t_cloud_public_csi_drive.Driver.Controller.Publication.{Yields-refuse_when}
use t_cloud_public_csi_drive.Driver.Node.{
  Files, access_of, or_code, publish_options, publish, node_publish_volume,
}
use t_cloud_public_csi_drive.Driver.Node.Wiring.{linux_mounter}
use t_cloud_public_csi_drive.Driver.Node.Publication.{published_read_only}
use t_cloud_public_csi_drive.Driver.Node.Staging.{Yields-or_code, device-IsDeviceOf}

-- The outcome of an action, at the state that it came from.
abbrev Answered : {S E A : Type 0} → Eff S E A → Result E A → Type 0
Answered {S} m r = (s : S) × ((m s).0 ≡ r)

Yields-attempted : {S E F A : Type 0} (m : Eff S E A) → Yields (Answered m) Any (attempt {F = F} m)
unfolding attempt
Yields-attempted m = record { outcome = λ s. (s, refl) }

value_seen :
    {S E A : Type 0} (m : Eff S E A) (r : Result E A)
    → Answered m r
    → Good (λ a. Answered m (ok a)) Any r
value_seen m (ok a) seen = seen
value_seen m (err e) seen = tt

EndsIn-or_code :
    {S A : Type 0} {P : S → Type 0} {m : Eff S Err A} (code : Err → Code)
    → EndsIn P m
    → EndsIn P (attempt m >>= or_code code)
unfolding ◌>>=◌ or_code
EndsIn-or_code {S} {A} {P} {m} code c = record { at = λ s. go (m s) (c.at s) }
  where
    go :
        (p : Result Err A × S)
        → Good (λ _. P p.1) Any p.0
        → Good (λ _. P (or_code code p.0 p.1).1) Any (or_code code p.0 p.1).0
    go (ok a, s) g = g
    go (err e, s) g = tt

bind_flavor-publish_options :
    (readonly : Bool) (flags : List String) → bind_flavor (publish_options readonly flags) ≢ ""
unfolding bind_flavor publish_options
bind_flavor-publish_options readonly flags e = cc

module _ (host : Host) (m : LinuxMounter) (ctx : HostContext) (req : NodePublishRequest) where
  -- What is bound to the target of a request, and with which flags: for a block device the device that
  -- was shown to be the one of the volume, for a mount the staging path, which the host showed as a
  -- mount point.
  pub data Bound : String → List String → Type 0 where
    device :
        (path : String)
        → access_of req.volume_capability ≡ block_access
        → IsDeviceOf host m req.volume_id
            (trim_space (index req.publish_context device_path_key))
            path
        → Bound path []
    staged :
        (asked : MountVolume) (moment : HostHistory)
        → access_of req.volume_capability ≡ mount_access asked
        → (is_mount_point host ctx req.staging_target_path moment).0 ≡ ok true
        → Bound req.staging_target_path asked.mount_flags

  -- The last thing that happened is a remount of the target with the options of the publication beside
  -- those that the source is mounted with; for a read-only publication whose flags
  -- have no `rw`, `ro` is one of them and `rw` is not.
  pub record Published (now : HostHistory) : Type 0 where
    pub source : String
    pub flags : List String
    pub bound : Bound source flags
    pub remounted :
        Remounted host ctx source req.target_path "" (publish_options req.readonly flags) now
    pub read_only :
        req.readonly ≡ true
        → contains flags "rw" ≡ false
        → (contains
              (remount_options
                (options_of_flags remounted.flags)
                (publish_options req.readonly flags))
              "ro"
            ≡ true)
          × (contains
                (remount_options
                  (options_of_flags remounted.flags)
                  (publish_options req.readonly flags))
                "rw"
              ≡ false)

  bind-Published :
      (source : String) (flags : List String)
      → Bound source flags
      → EndsIn Published
          (mount host ctx source req.target_path "" (publish_options req.readonly flags))
  bind-Published source flags bound =
      EndsIn-map
        (λ now r. record {
          source = source;
          flags = flags;
          bound = bound;
          remounted = r;
          read_only = λ asked without. rw asked (published_read_only r.flags flags without);
        })
        (mount-Remounted host ctx source req.target_path "" (publish_options req.readonly flags)
          a_bind)
    where
      a_bind : bind_flavor (publish_options req.readonly flags) ≢ ""
      a_bind = bind_flavor-publish_options req.readonly flags

  publish-Published :
      (files : Files HostHistory) (access : AccessType)
      → access_of req.volume_capability ≡ access
      → EndsIn Published (publish (linux_mounter host m ctx) files req access)
  unfolding publish
  publish-Published files no_access_type e = EndsIn-raise _
  publish-Published files block_access e =
      EndsIn-given (device-IsDeviceOf host m ctx files req.volume_id _) (λ path found.
        EndsIn-bind _ _ (λ _. EndsIn-or_code _ (bind-Published path [] (device path e found))))
  publish-Published files (mount_access asked) e =
      EndsIn-given (Yields-attempted (is_mount_point host ctx req.staging_target_path))
        (λ answer seen.
          EndsIn-given
            (Yields-or_code _ answer
              (value_seen (is_mount_point host ctx req.staging_target_path) answer seen))
            (λ shown (moment, same). EndsIn-given (Yields-refuse_when (not shown) _) (λ _ yes.
              EndsIn-bind _ _ (λ _. EndsIn-or_code _ (
                bind-Published req.staging_target_path asked.mount_flags
                  (staged asked moment e (same ∙ ap ok (ground arith))))))))

  -- Whatever the host answers: when `NodePublishVolume` succeeds, the last thing that happened on the
  -- host is a remount of the target with the options of the publication beside those that the source is
  -- mounted with, and for a read-only request whose flags have no `rw`, with `ro` and without `rw`. What it
  -- binds is, for a block volume, a device that the links of the volume and the published path both led
  -- to, and for a mount the staging path, which the host showed as a mount point.
  pub node_publish-Published :
      (files : Files HostHistory)
      → EndsIn Published (node_publish_volume (linux_mounter host m ctx) files (some req))
  unfolding node_publish_volume
  node_publish-Published files = EndsIn-bind _ _ (λ _. EndsIn-bind _ _ (λ _. EndsIn-bind _ _ (λ _.
      EndsIn-bind _ _ (λ _.
        EndsIn-bind _ _ (λ _. publish-Published files (access_of req.volume_capability) refl)))))
