-- ===== src/Evs/Listing/Discovery.antt =====
-- internal/evs/volume.go: what `DiscoverVolume` returns.
use t_cloud_public_csi_drive.Common.{◌≡◌, inl, inr, List}
use t_cloud_public_csi_drive.Eff.Rules.{Yields, Yields-bind}
use t_cloud_public_csi_drive.Evs.Types.{Volume, DiscoverVolumeOpts}
use t_cloud_public_csi_drive.Evs.Cloud.{Cloud, Context}
use t_cloud_public_csi_drive.Evs.Cloud.Outcomes.{Any, Yields-Any}
use t_cloud_public_csi_drive.Evs.Listing.{adopt, discover_volume}
use t_cloud_public_csi_drive.Evs.Listing.Adoption.{IsCompatible, adopt_outcome}

-- A volume that a request may take over: of its name, and compatible.
abbrev pub Usable : DiscoverVolumeOpts → Volume → Type 0
Usable opts vol = (vol.name ≡ opts.name) × IsCompatible vol opts

adopt-Usable :
    (opts : DiscoverVolumeOpts) (listing : List Volume)
    → Yields (Usable opts) Any (adopt opts listing)
adopt-Usable opts listing = record {
  outcome = λ h. elim (adopt_outcome opts listing h) [
    | inl (e, _) ↦ rw e tt
    | inr (inl (vol, e, c)) ↦ rw e (c.named, c.compatible)
    | inr (inr (e, _, _)) ↦ rw e tt
  ];
}

-- Whatever the cloud answers, the volume that `DiscoverVolume` returns has the requested name, carries
-- the driver's ownership tag, is available or in use, and has the requested zone and type and a size
-- between the requested bounds.
pub discover_volume-Usable :
    (cloud : Cloud) (ctx : Context) (opts : DiscoverVolumeOpts)
    → Yields (Usable opts) Any (discover_volume cloud ctx opts)
unfolding discover_volume
discover_volume-Usable cloud ctx opts = Yields-bind (Yields-Any _) (λ _ _.
    Yields-bind (Yields-Any _) (λ _ _. Yields-bind (Yields-Any _) (λ l _. adopt-Usable opts l)))
