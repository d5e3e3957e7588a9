-- ===== src/Driver/Capability/Admission.antt =====
-- internal/driver/controller.go: which capabilities and parameters the checks let through.
use t_cloud_public_csi_drive.Common.{
  ◌≡◌, refl, ◌⊎◌, inl, inr, ◌↔◌, true, Bool-cases, Option, none, some, String, List, [], ◌∷◌, arith,
  eq_iff, starts_with, Dict, keys, All, sort, text_leb, All-sort, All-of_sort, str_eq,
}
use t_cloud_public_csi_drive.Text.{trim_space, to_lower}
use t_cloud_public_csi_drive.Driver.Csi.{
  AccessMode, single_node_writer, single_node_reader_only, VolumeCapability,
}
use t_cloud_public_csi_drive.Driver.Capability.{
  co_reserved_parameter_prefix, param_volume_type, param_availability_zone, get_fs_type,
  is_supported_mode, is_supported_filesystem_type, validate_volume_capability,
  validate_capabilities, is_accepted_parameter, validate_keys, validate_parameters,
}

-- A parameter that the driver knows or that the orchestrator reserves.
pub data IsKnown (key : String) : Type 0 where
  reserved : starts_with key co_reserved_parameter_prefix ≡ true → IsKnown key
  volume_type : key ≡ param_volume_type → IsKnown key
  zone : key ≡ param_availability_zone → IsKnown key

accepted-iff-IsKnown : (key : String) → (is_accepted_parameter key ≡ true) ↔ IsKnown key
accepted-iff-IsKnown key = (there, back)
  where
    there : is_accepted_parameter key ≡ true → IsKnown key
    there h = elim (Bool-cases (starts_with key co_reserved_parameter_prefix)) [
      | inl e ↦ reserved e
      | inr e ↦ elim (Bool-cases (str_eq key param_volume_type)) [
        | inl f ↦ volume_type ((eq_iff key param_volume_type).0 f)
        | inr f ↦ zone ((eq_iff key param_availability_zone).0 (ground arith))
      ]
    ]

    back : IsKnown key → is_accepted_parameter key ≡ true
    back (reserved e) = ground arith
    back (volume_type e) = ground (arith, (eq_iff key param_volume_type).1 e)
    back (zone e) = ground (arith, (eq_iff key param_availability_zone).1 e)

validate_keys_iff : (ks : List String) → (validate_keys ks ≡ none) ↔ All IsKnown ks
unfolding validate_keys
validate_keys_iff [] = ((λ _. tt), λ _. refl)
validate_keys_iff (k ∷ ks) = (
  (λ h. ((accepted-iff-IsKnown k).0 (ground arith), (validate_keys_iff ks).0 (ground arith))),
  λ (p, ps). ground (arith, (accepted-iff-IsKnown k).1 p, (validate_keys_iff ks).1 ps),
)

-- `validateParameters` accepts exactly the parameters each of whose keys is known or reserved, in
-- whatever order the map holds them.
pub validate_parameters_iff :
    (params : Dict) → (validate_parameters params ≡ none) ↔ All IsKnown (keys params)
unfolding validate_parameters
validate_parameters_iff params = (
  (λ h.
      All-of_sort text_leb IsKnown (keys params)
        ((validate_keys_iff (sort text_leb (keys params))).0 h)),
  λ all.
      (validate_keys_iff (sort text_leb (keys params))).1
        (All-sort text_leb IsKnown (keys params) all),
)

-- A capability that the driver serves: one node at a time, and for a mounted volume a filesystem that
-- it can make, or none named. Filesystem names have no case, and spaces around them do not count.
pub record IsServed (o : Option VolumeCapability) : Type 0 where
  pub cap : VolumeCapability
  pub given : o ≡ some cap
  pub mode :
      (cap.access_mode ≡ some single_node_writer) ⊎ (cap.access_mode ≡ some single_node_reader_only)
  pub filesystem :
      (trim_space (get_fs_type cap.access_type) ≡ "")
      ⊎ (to_lower (trim_space (get_fs_type cap.access_type)) ≡ "ext4")
      ⊎ (to_lower (trim_space (get_fs_type cap.access_type)) ≡ "xfs")

supported_iff :
    (mode : AccessMode)
    → (is_supported_mode mode ≡ true)
      ↔ ((mode ≡ single_node_writer) ⊎ (mode ≡ single_node_reader_only))
supported_iff mode = (ground arith, ground arith)

-- `validateVolumeCapability` accepts exactly the capabilities that the driver serves.
pub validate_volume_capability_iff :
    (o : Option VolumeCapability) → (validate_volume_capability o ≡ none) ↔ IsServed o
unfolding validate_volume_capability is_supported_filesystem_type
validate_volume_capability_iff none =
    ((λ h. absurd (ground arith)), λ s. absurd (ground (arith, s.given)))
validate_volume_capability_iff (some cap) = (there, back)
  where
    fs : String
    fs = trim_space (get_fs_type cap.access_type)

    there : validate_volume_capability (some cap) ≡ none → IsServed (some cap)
    there h = record {
      cap = cap;
      given = refl;
      mode = ground arith;
      filesystem =
          ground (arith, eq_iff fs "", eq_iff (to_lower fs) "ext4", eq_iff (to_lower fs) "xfs");
    }

    back : IsServed (some cap) → validate_volume_capability (some cap) ≡ none
    back s = ground (
      arith,
      eq_iff fs "",
      eq_iff (to_lower fs) "ext4",
      eq_iff (to_lower fs) "xfs",
      s.given,
      s.mode,
      s.filesystem,
    )

-- The loop over the capabilities of a request accepts them exactly if it accepts each of them.
pub validate_capabilities_iff :
    (caps : List (Option VolumeCapability))
    → (validate_capabilities caps ≡ none) ↔ All IsServed caps
unfolding validate_capabilities
validate_capabilities_iff [] = ((λ _. tt), λ _. refl)
validate_capabilities_iff (c ∷ caps) = (
  (λ h. (
    (validate_volume_capability_iff c).0 (ground arith),
    (validate_capabilities_iff caps).0 (ground arith),
  )),
  λ (p, ps).
      ground (arith, (validate_volume_capability_iff c).1 p, (validate_capabilities_iff caps).1 ps),
)
