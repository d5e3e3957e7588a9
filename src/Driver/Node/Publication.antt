-- ===== src/Driver/Node/Publication.antt =====
-- internal/driver/node.go: how `NodePublishVolume` publishes, and when a path is removed.
use t_cloud_public_csi_drive.Common.{
  ◌⊎◌, ℕ, ◌≡◌, refl, ◌↔◌, Bool, true, false, not, ◌&&◌, some, String, List, [], ◌∷◌, ◌++◌, Memᴰ,
  keep, arith, str_eq,
}
use t_cloud_public_csi_drive.Text.{is_blank}
use t_cloud_public_csi_drive.Eff.{Result, ok, err, ◌>>=◌}
use t_cloud_public_csi_drive.Eff.Rules.{Any, Yields-Any, Yields-map, Yields, Yields-bind}
use t_cloud_public_csi_drive.Errors.{Err, errors_is, not_exist}
use t_cloud_public_csi_drive.Mount.{
  contains, flag_options, options_of_flags, bind_remount_options, remount_options,
}
use t_cloud_public_csi_drive.Mount.Remount.{
  contains-append, restate-absent, remount_options-contains,
}
use t_cloud_public_csi_drive.Driver.Csi.{Code, NodePublishRequest, UnstageRequest}
use t_cloud_public_csi_drive.Driver.Capability.Admission.{IsServed, validate_volume_capability_iff}
use t_cloud_public_csi_drive.Driver.Controller.Publication.{Yields-check, Yields-refuse_when}
use t_cloud_public_csi_drive.Driver.Node.{
  Mounter, Files, is_read_only_mode, publish_options, after_remove, node_publish_volume,
  node_unstage_volume,
}

kept-other :
    (flags : List String) (o : String)
    → contains flags o ≡ false
    → contains (keep (λ opt. not (str_eq opt "bind") && not (str_eq opt "ro")) flags) o ≡ false
unfolding contains
kept-other [] o h = refl
kept-other (x ∷ flags) o h = ground (arith, kept-other flags o)

kept-ro :
    (flags : List String)
    → contains (keep (λ opt. not (str_eq opt "bind") && not (str_eq opt "ro")) flags) "ro" ≡ false
unfolding contains
kept-ro [] = refl
kept-ro (x ∷ flags) = ground (arith, kept-ro flags)

-- `NodePublishVolume` mounts with `ro` exactly where the request is read-only, whatever flags it has.
pub publish_options_read_only :
    (readonly : Bool) (flags : List String)
    → contains (publish_options readonly flags) "ro" ≡ readonly
unfolding publish_options contains
publish_options_read_only true flags = refl
publish_options_read_only false flags = kept-ro flags

flag_options_rw : (flags : ℕ) → contains (flag_options flags bind_remount_options) "rw" ≡ false
unfolding flag_options contains
flag_options_rw flags = ground arith

-- A read-only publication without an `rw` among its flags is remounted with `ro` and without `rw`,
-- whatever flags the source is mounted with.
pub published_read_only :
    (source_flags : ℕ) (flags : List String)
    → contains flags "rw" ≡ false
    → (contains (remount_options (options_of_flags source_flags) (publish_options true flags)) "ro"
        ≡ true)
      × (contains
            (remount_options (options_of_flags source_flags) (publish_options true flags))
            "rw"
          ≡ false)
unfolding remount_options options_of_flags publish_options
published_read_only source_flags flags without = (
  remount_options-contains source (publish_options true flags) "ro"
      (Memᴰ-behind source (publish_options true flags) "ro" (Memᴰ.tail (Memᴰ.head refl))) refl,
  restate-absent (contains source "ro") ("bind" ∷ "remount" ∷ [])
      (source ++ publish_options true flags) "rw" (unfold contains in refl)
      (rw (contains-append source (publish_options true flags) "rw")
        (rw (flag_options_rw source_flags) (unfold contains in kept-other flags "rw" without))),
)
  where
    source : List String
    source = options_of_flags source_flags

    Memᴰ-behind : (xs ys : List String) (o : String) → Memᴰ o ys → Memᴰ o (xs ++ ys)
    Memᴰ-behind [] ys o m = m
    Memᴰ-behind (x ∷ xs) ys o m = Memᴰ.tail (Memᴰ-behind xs ys o m)

-- A publication that the service answers with success.
pub record IsAllowed (req : NodePublishRequest) : Type 0 where
  pub served : IsServed req.volume_capability
  pub reading : is_read_only_mode req.volume_capability ≡ true → req.readonly ≡ true
  pub volume_given : is_blank req.volume_id ≡ false
  pub target_given : is_blank req.target_path ≡ false

-- Whatever the host does, `NodePublishVolume` succeeds only for a capability that the driver serves and
-- a volume and a target that are given, and for a read-only access mode only if the publication is
-- read-only.
pub node_publish-IsAllowed :
    {S : Type 0} (mounter : Mounter S) (files : Files S) (req : NodePublishRequest)
    → Yields (λ _. IsAllowed req) Any (node_publish_volume mounter files (some req))
unfolding node_publish_volume
node_publish-IsAllowed mounter files req = Yields-bind (Yields-refuse_when _ _) (λ _ volume_given.
    Yields-bind (Yields-Any _) (λ _ _. Yields-bind (Yields-refuse_when _ _) (λ _ target_given.
      Yields-bind (Yields-check _) (λ _ valid. Yields-bind (Yields-refuse_when _ _) (λ _ allowed.
        Yields-map
          (λ _ _. record {
            served = (validate_volume_capability_iff req.volume_capability).0 valid;
            reading = λ mode. ground arith;
            volume_given = volume_given;
            target_given = target_given;
          })
          (Yields-Any _))))))

-- What `os.Remove` answers for a path that is gone.
abbrev pub IsGone : Result Err (Unit {0}) → Type 0
IsGone (ok _) = Unit
IsGone (err e) = errors_is e not_exist ≡ true

after_remove-IsGone :
    {S : Type 0} (r : Result Err (Unit {0})) (s : S) → (after_remove r s).0 ≡ ok tt → IsGone r
unfolding after_remove ◌>>=◌
after_remove-IsGone (ok _) s h = tt
after_remove-IsGone (err e) s h = ground arith

gone_after_remove :
    {S : Type 0} (r : Result Err (Unit {0})) (s : S) → IsGone r → (after_remove r s).0 ≡ ok tt
unfolding after_remove ◌>>=◌
gone_after_remove (ok _) s g = refl
gone_after_remove (err e) s g = ground arith

module _ {S : Type 0} (mounter : Mounter S) (files : Files S) (req : UnstageRequest) (s : S) where
  abbrev unmounted : Result Err (Unit {0}) × S
  unmounted = mounter.unmount req.staging_target_path s

  abbrev unstaged : Result Code (Unit {0}) × S
  unstaged = node_unstage_volume mounter files (some req) s

  -- `NodeUnstageVolume` succeeds exactly where its volume and path are given, the unmount succeeds, and
  -- after it the path is removed or was gone. Where the volume or the path is not given, it does nothing
  -- at all; and where the unmount fails, nothing after that, so the path is not removed.
  pub node_unstage_succeeds :
      ((unstaged.0 ≡ ok tt) ↔ (
        (is_blank req.volume_id ≡ false)
        × (is_blank req.staging_target_path ≡ false)
        × (unmounted.0 ≡ ok tt)
        × IsGone (files.remove req.staging_target_path unmounted.1).0))
      × ((is_blank req.volume_id ≡ true) ⊎ (is_blank req.staging_target_path ≡ true)
          → unstaged.1 ≡ s)
      × ((e : Err)
          → is_blank req.volume_id ≡ false
          → is_blank req.staging_target_path ≡ false
          → unmounted.0 ≡ err e
          → (unstaged.1 ≡ unmounted.1))
  unfolding node_unstage_volume ◌>>=◌
  node_unstage_succeeds = (
    (
      (λ h. (ground arith, ground arith, ground arith, gone (ground arith))),
      λ (given, at, done, gone). ground (arith, given, at, done, removed gone),
    ),
    (λ blank. ground arith),
    λ e given at failed. ground arith,
  )
    where
      gone :
          (after_remove
              (files.remove req.staging_target_path unmounted.1).0
              (files.remove req.staging_target_path unmounted.1).1).0
            ≡ ok tt
          → IsGone (files.remove req.staging_target_path unmounted.1).0
      gone h = after_remove-IsGone _ _ h

      removed :
          IsGone (files.remove req.staging_target_path unmounted.1).0
          → (after_remove
              (files.remove req.staging_target_path unmounted.1).0
              (files.remove req.staging_target_path unmounted.1).1).0
            ≡ ok tt
      removed g = gone_after_remove _ _ g
