-- ===== src/Driver/Controller/Provision.antt =====
-- internal/driver/controller.go: which requests `CreateVolume` acts on, and what it gives back for them.
use t_cloud_public_csi_drive.Common.{
  ap, sym, ◌∙◌, subst, ℕ, ◌*◌, ◌≤◌, ◌<◌, ◌≡◌, ◌≢◌, refl, ◌↔◌, true, false, ◌∷◌, [], String, List,
  arith, All, eq_iff, index, keys,
}
use t_cloud_public_csi_drive.Common.Int.{ℤ, pos, int64_bound}
use t_cloud_public_csi_drive.Text.{trim_space, is_blank}
use t_cloud_public_csi_drive.Eff.{ok, ◌>>=◌}
use t_cloud_public_csi_drive.Eff.Rules.{Any, Good}
use t_cloud_public_csi_drive.Evs.Types.{Volume, DiscoverVolumeOpts}
use t_cloud_public_csi_drive.Evs.Cloud.{Cloud, Context, History}
use t_cloud_public_csi_drive.Evs.Listing.{is_adoptable, discover_volume}
use t_cloud_public_csi_drive.Evs.Listing.Discovery.{Usable, discover_volume-Usable}
use t_cloud_public_csi_drive.Evs.Listing.Adoption.{is_adoptable-iff-IsCompatible}
use t_cloud_public_csi_drive.Driver.Csi.{CreateVolumeRequest, CsiVolume}
use t_cloud_public_csi_drive.Driver.Capability.{param_volume_type}
use t_cloud_public_csi_drive.Driver.Capability.Admission.{
  IsServed, validate_capabilities_iff, IsKnown, validate_parameters_iff,
}
use t_cloud_public_csi_drive.Driver.Capacity.{resolve_size_gib, limit_size_gib, bytes_in_gib}
use t_cloud_public_csi_drive.Driver.Capacity.Bounds.{range, limit_exact, resolve-Fits}
use t_cloud_public_csi_drive.Driver.Request.{
  topology_zone_key, pick_availability_zone, format_create_volume_response,
}
use t_cloud_public_csi_drive.Driver.Controller.{
  is_nil, validate_create, discover_opts, create_opts, after_discovery, provision,
}
use t_cloud_public_csi_drive.Driver.Controller.Wiring.{evs_client}

-- A request that asks for a volume of this type, zone and size.
pub record Asks (req : CreateVolumeRequest) (vol_type zone : String) (size : ℤ) : Type 0 where
  pub named : is_blank req.name ≡ false
  pub some_use : req.volume_capabilities ≢ []
  pub served : All IsServed req.volume_capabilities
  pub from_nothing : req.has_content_source ≡ false
  pub known : All IsKnown (keys req.parameters)
  pub typed : vol_type ≡ trim_space (index req.parameters param_volume_type)
  pub type_given : vol_type ≢ ""
  pub placed : zone ≡ pick_availability_zone req.accessibility_requirements req.parameters
  pub zone_given : zone ≢ ""
  pub sized : resolve_size_gib req.capacity_range ≡ ok size

is_nil_iff : {A : Type 0} (l : List A) → (is_nil l ≡ false) ↔ (l ≢ [])
is_nil_iff [] = ((λ h. cc), λ h. absurd (h refl))
is_nil_iff (a ∷ l) = ((λ h e. cc), λ h. refl)

-- `CreateVolume` gets past its checks exactly for the requests that ask for a volume that the driver
-- can make, and goes on with the type, the zone and the size that they ask for.
pub validate_create-iff-Asks :
    {S : Type 0} (req : CreateVolumeRequest) (vol_type zone : String) (size : ℤ) (s : S)
    → (validate_create req s ≡ (ok (vol_type, zone, size), s)) ↔ Asks req vol_type zone size
unfolding validate_create ◌>>=◌
validate_create-iff-Asks req vol_type zone size s = (
  (λ h. record {
    named = ground arith;
    some_use = (is_nil_iff req.volume_capabilities).0 (ground arith);
    served = (validate_capabilities_iff req.volume_capabilities).0 (ground arith);
    from_nothing = ground arith;
    known = (validate_parameters_iff req.parameters).0 (ground arith);
    typed = ground arith;
    type_given = ground (arith, eq_iff vol_type "");
    placed = ground arith;
    zone_given = ground (arith, eq_iff zone "");
    sized = ground arith;
  }),
  λ a. ground (
    arith,
    (is_nil_iff req.volume_capabilities).1 a.some_use,
    (validate_capabilities_iff req.volume_capabilities).1 a.served,
    (validate_parameters_iff req.parameters).1 a.known,
    (eq_iff vol_type ""),
    (eq_iff zone ""),
    a.named,
    a.from_nothing,
    a.typed,
    a.type_given,
    a.placed,
    a.zone_given,
    a.sized,
  ),
)

-- A volume that is adoptable for bounds that were made from these numbers of bytes keeps to them.
adopted_capacity :
    (req limit n v : ℕ) (vol : Volume) (opts : DiscoverVolumeOpts)
    → req < int64_bound
    → limit < int64_bound
    → resolve_size_gib (range req limit) ≡ ok (pos n)
    → opts.min_size_gib ≡ pos n
    → opts.max_size_gib ≡ limit_size_gib (range req limit)
    → is_adoptable vol opts ≡ true
    → vol.size ≡ pos v
    → v * bytes_in_gib < int64_bound
    → (req ≤ v * bytes_in_gib)
      × (0 < limit → v * bytes_in_gib ≤ limit)
      × ((format_create_volume_response vol).capacity_bytes ≡ pos (v * bytes_in_gib))
      × (vol.availability_zone ≡ opts.availability_zone)
unfolding format_create_volume_response
adopted_capacity req limit n v vol opts hr hl resolved at_least at_most adoptable size small =
    let c = (is_adoptable-iff-IsCompatible vol opts).0 adoptable in
    let fits = resolve-Fits req limit n hr hl resolved in
    let large : n ≤ v = ground (arith, c.large, at_least, size) in
    (
      omega (arith, fits.enough, large),
      (λ p.
          let (l, bound, some_bound, exact) = limit_exact req limit n v hr hl p resolved in
          exact.0 (ground (arith, c.small, at_most, size, bound, some_bound))),
      ground arith,
      c.zone,
    )

-- The answer for a volume that is taken over: its identifier, its bytes, which keep to the bounds of the
-- request, and the zone.
pub record Adopts (req limit v : ℕ) (zone : String) (vol : Volume) (answer : CsiVolume)
    : Type 0 where
  pub identifier : answer.volume_id ≡ vol.id
  pub bytes : answer.capacity_bytes ≡ pos (v * bytes_in_gib)
  pub enough : req ≤ v * bytes_in_gib
  pub within : 0 < limit → v * bytes_in_gib ≤ limit
  pub topology : answer.accessible_topology ≡ ((topology_zone_key, zone) ∷ []) ∷ []

-- Whatever the cloud answers, for a request with a range of capacity: where the discovery that
-- `CreateVolume` starts for it returns a volume, that has the name of the request, and `CreateVolume`
-- calls the cloud no more and answers with the identifier of the volume, with all its bytes, which cover
-- what the request requires and keep within its limit, if it has one, and with the zone that the request
-- was placed in. Assumed are bounds that an `int64` holds, and a size of the volume whose bytes one
-- holds.
pub adopted_answer :
    (cloud : Cloud) (ctx : Context) (request : CreateVolumeRequest) (vol_type zone : String)
    (req limit n v : ℕ) (vol : Volume) (h h' : History)
    → req < int64_bound
    → limit < int64_bound
    → request.capacity_range ≡ range req limit
    → resolve_size_gib request.capacity_range ≡ ok (pos n)
    → discover_volume cloud ctx (discover_opts request vol_type zone (pos n)) h ≡ (ok vol, h')
    → vol.size ≡ pos v
    → v * bytes_in_gib < int64_bound
    → (vol.name ≡ request.name)
      × ((answer : CsiVolume) × (provision (evs_client cloud ctx) request vol_type zone (pos n) h
            ≡ (ok answer, h'))
          × Adopts req limit v zone vol answer)
unfolding provision after_discovery format_create_volume_response ◌>>=◌
adopted_answer cloud ctx request vol_type zone req limit n v vol h h' hr hl bounds resolved found
      size small =
    let usable : Usable opts vol =
      subst (λ p. Good (Usable opts) Any p.0) found
        ((discover_volume-Usable cloud ctx opts).outcome h) in
    let kept =
      adopted_capacity req limit n v vol opts hr hl (ap resolve_size_gib (sym bounds) ∙ resolved)
        refl (ap limit_size_gib bounds) ((is_adoptable-iff-IsCompatible vol opts).1 usable.1) size
        small in
    let answered : provision (evs_client cloud ctx) request vol_type zone (pos n) h
        ≡ (ok (format_create_volume_response vol), h') =
      ap
        (λ p.
          after_discovery (evs_client cloud ctx) (create_opts request vol_type zone (pos n)) p.0
            p.1)
        found in
    (
      usable.0,
      (
        format_create_volume_response vol,
        answered,
        record {
          identifier = refl;
          bytes = kept.2;
          enough = kept.0;
          within = kept.1;
          topology = ap (λ z. ((topology_zone_key, z) ∷ []) ∷ []) kept.3;
        },
      ),
    )
  where
    opts : DiscoverVolumeOpts
    opts = discover_opts request vol_type zone (pos n)
