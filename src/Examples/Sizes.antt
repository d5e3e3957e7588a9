-- ===== src/Examples/Sizes.antt =====
-- Tests of the capacity of internal/driver/controller.go.
use t_cloud_public_csi_drive.Common.{
  take, drop, [], ◌∷◌, none, false, sort, text_leb, ℕ, ◌≡◌, refl, ◌≤◌, inr, ◌↔◌, true, arith, index,
}
use t_cloud_public_csi_drive.Common.Int.{pos, negsuc}
use t_cloud_public_csi_drive.Eff.{Result, ok, err}
use t_cloud_public_csi_drive.Errors.{Err}
use t_cloud_public_csi_drive.Evs.Types.{Volume, DiscoverVolumeOpts}
use t_cloud_public_csi_drive.Evs.Volume.{map_v2_volume_to_domain}
use t_cloud_public_csi_drive.Evs.Listing.{
  is_adoptable, adopt, discover_volume, list_volumes, list_pages, list_volume_page,
}
use t_cloud_public_csi_drive.Evs.Cloud.{Cloud, caller, History, actions}
use t_cloud_public_csi_drive.Text.{is_blank}
use t_cloud_public_csi_drive.Driver.Csi.{
  CsiVolume, CreateVolumeRequest, out_of_range_code, CapacityRange,
}
use t_cloud_public_csi_drive.Driver.Capacity.{resolve_size_gib, limit_size_gib}
use t_cloud_public_csi_drive.Driver.Capacity.Roundtrip.{exactly, answered_capacity_again}
use t_cloud_public_csi_drive.Driver.Capacity.Bounds.{
  Fits, range, resolve-Fits, resolve_least, resolve_out_of_range,
}
use t_cloud_public_csi_drive.Driver.Request.{format_create_volume_response}
use t_cloud_public_csi_drive.Driver.Controller.Provision.{Adopts, adopted_answer}
use t_cloud_public_csi_drive.Driver.Controller.Wiring.{evs_client}
use t_cloud_public_csi_drive.Driver.Controller.{provision}
use t_cloud_public_csi_drive.Examples.{listed_volume, steady_cloud}

-- 10 GiB and one byte, up to 20 GiB.
abbrev required : ℕ
required = 10_737_418_241

abbrev limit : ℕ
limit = 21_474_836_480

resolve_test : resolve_size_gib (range required limit) ≡ ok (pos 11)
unfolding resolve_size_gib
resolve_test = refl

limit_test : limit_size_gib (range required limit) ≡ pos 20
unfolding limit_size_gib
limit_test = refl

resolve-Fits_example : Fits required limit 11
resolve-Fits_example = resolve-Fits required limit 11 (omega arith) (omega arith) resolve_test

twelve-Fits : Fits required limit 12
twelve-Fits = record {
  least = omega arith;
  enough = omega arith;
  expressible = omega arith;
  within = λ _. omega arith;
}

resolve_least_example : (m : ℕ) × (resolve_size_gib (range required limit) ≡ ok (pos m)) × (m ≤ 12)
resolve_least_example = resolve_least required limit 12 (omega arith) (omega arith) twelve-Fits

-- 15 GiB and one byte, up to one byte more.
resolve_out_of_range_example :
    (resolve_size_gib (range 16_106_127_361 16_106_127_362) ≡ err out_of_range_code)
    ↔ ((n : ℕ) → ¬ Fits 16_106_127_361 16_106_127_362 n)
resolve_out_of_range_example =
    resolve_out_of_range 16_106_127_361 16_106_127_362 (omega arith) (omega arith)
      (inr (omega arith))

abbrev negative : CapacityRange
negative = record { required_bytes = negsuc 0; limit_bytes = pos 0 }

abbrev asked : DiscoverVolumeOpts
asked = record {
  name = "pvc-1";
  availability_zone = "eu-de-01";
  volume_type = "SSD";
  min_size_gib = pos 11;
  max_size_gib = limit_size_gib (range required limit);
}

abbrev found : Volume
found = map_v2_volume_to_domain (listed_volume "vol-1")

found_test : is_adoptable found asked ≡ true
unfolding is_adoptable index map_v2_volume_to_domain limit_size_gib
found_test = refl

found_size_test : found.size ≡ pos 12
unfolding map_v2_volume_to_domain
found_size_test = refl

abbrev sized : CreateVolumeRequest
sized = record {
  name = "pvc-1";
  capacity_range = range required limit;
  volume_capabilities = [];
  parameters = [];
  has_content_source = false;
  accessibility_requirements = none;
}

abbrev one_volume : Cloud
one_volume = steady_cloud (listed_volume "vol-1" ∷ [])

abbrev discovered : Result Err Volume × History
discovered = discover_volume one_volume caller asked []

discovered_test : discovered ≡ (ok found, discovered.1)
unfolding discover_volume list_volumes list_pages list_volume_page actions adopt sort text_leb
    is_adoptable index map_v2_volume_to_domain limit_size_gib is_blank take drop
discovered_test = refl

adopted_answer_example :
    (found.name ≡ sized.name)
    × ((answer : CsiVolume) × (provision
            (evs_client one_volume caller)
            sized
            "SSD"
            "eu-de-01"
            (pos 11)
            []
          ≡ (ok answer, discovered.1))
        × Adopts required limit 12 "eu-de-01" found answer)
adopted_answer_example =
    adopted_answer one_volume caller sized "SSD" "eu-de-01" required limit 11 12 found []
      discovered.1 (omega arith) (omega arith) refl resolve_test discovered_test found_size_test
      (omega arith)

answered_capacity_again_example :
    (resolve_size_gib (exactly (format_create_volume_response found).capacity_bytes)
      ≡ ok found.size)
    × (limit_size_gib (exactly (format_create_volume_response found).capacity_bytes) ≡ found.size)
answered_capacity_again_example =
    answered_capacity_again found 12 found_size_test (omega arith) (omega arith)
