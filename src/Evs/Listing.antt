-- ===== src/Evs/Listing.antt =====
-- internal/evs/volume.go: `ListVolumes`, `DiscoverVolume` and the test for adoption.
pub mod Pages
pub mod Adoption
pub mod Discovery
use t_cloud_public_csi_drive.Common.{
  ℕ, zero, suc, String, Bool, true, false, not, ◌&&◌, ◌||◌, Option, none, some, List, [], ◌∷◌, ◌++◌,
  map, length, keep, find, sort, text_leb, if◌then◌else◌, str_eq, index,
}
use t_cloud_public_csi_drive.Common.Int.{pos, ltb_ℤ}
use t_cloud_public_csi_drive.Text.{is_blank}
use t_cloud_public_csi_drive.Eff.{pure, raise, attempt, ◌>>=◌, ◌>>◌}
use t_cloud_public_csi_drive.Errors.{not_found, conflict, invalid_argument, operation_failed, only}
use t_cloud_public_csi_drive.Evs.Types.{Volume, ListVolumeOpts, DiscoverVolumeOpts}
use t_cloud_public_csi_drive.Evs.Cloud.{
  Cloud, Context, M, list_request, request, with_timeout, ctx_err, fail_when, fail_classified,
  classified,
}
use t_cloud_public_csi_drive.Evs.Volume.{
  ownership_tag_key, ownership_tag_value, max_operation_timeout, map_v2_volume_to_domain,
}

abbrev pub discovery_page_size : ℕ
discovery_page_size = 100

abbrev pub volume_list_max_pages : ℕ
volume_list_max_pages = 50

abbrev pub volume_status_available : String
volume_status_available = "available"

abbrev pub volume_status_in_use : String
volume_status_in_use = "in-use"

-- `isAdoptable`
unfoldable pub is_adoptable : Volume → DiscoverVolumeOpts → Bool
is_adoptable vol opts =
    if not (str_eq (index vol.tags ownership_tag_key) ownership_tag_value)
    then false
    else if not (str_eq vol.status volume_status_available)
        && not (str_eq vol.status volume_status_in_use)
    then false
    else if not (str_eq vol.availability_zone opts.availability_zone)
    then false
    else if not (str_eq vol.volume_type opts.volume_type)
    then false
    else if ltb_ℤ vol.size opts.min_size_gib
    then false
    else if ltb_ℤ (pos 0) opts.max_size_gib && ltb_ℤ opts.max_size_gib vol.size
    then false
    else true

-- The order of the choice among volumes of one name.
abbrev pub id_leb : Volume → Volume → Bool
id_leb a b = text_leb a.id b.id

abbrev pub choose : List Volume → Option Volume → M Volume
choose [] _ = raise (only not_found)
choose (_ ∷ _) (some vol) = pure vol
choose (_ ∷ _) none = raise (only conflict)

-- The volumes of the name, in the order of the choice.
unfoldable pub in_order : DiscoverVolumeOpts → List Volume → List Volume
in_order opts candidates = sort id_leb (keep (λ v. str_eq v.name opts.name) candidates)

-- The end of `DiscoverVolume`: what it makes of the listing.
unfoldable pub adopt : DiscoverVolumeOpts → List Volume → M Volume
unfolding in_order
adopt opts candidates =
    choose (keep (λ v. str_eq v.name opts.name) candidates)
      (find (λ v. is_adoptable v opts) (in_order opts candidates))

abbrev pub by_name : String → ListVolumeOpts
by_name name = record {
  name = name;
  status = "";
  availability_zone = "";
  id = "";
  limit = pos 0;
  offset = pos 0;
}

-- An empty page ends the loop, and any other joins what is listed.
abbrev pub after_page :
    List Volume → List Volume → (List Volume → M (List Volume)) → M (List Volume)
after_page res [] later = pure res
after_page res (v ∷ vs) later = later (res ++ v ∷ vs)

module _ (cloud : Cloud) where
  unfoldable pub list_volume_page : Context → ListVolumeOpts → M (List Volume)
  list_volume_page ctx opts = do
    stopped ← ctx_err cloud ctx
    fail_classified stopped
    answer ← attempt (request (list_request opts) (cloud.list opts))
    v2_vols ← classified answer
    pure (map map_v2_volume_to_domain v2_vols)

  -- The loop over pages, with the rounds that are left and what is listed so far.
  unfoldable pub list_pages : Context → ListVolumeOpts → ℕ → List Volume → M (List Volume)
  list_pages ctx opts zero res = raise (only operation_failed)
  list_pages ctx opts (suc rounds) res = do
    page ←
        list_volume_page ctx
          (record opts { limit = pos discovery_page_size; offset = pos (length res) })
    after_page res page (λ res'. list_pages ctx opts rounds res')

  unfoldable pub list_volumes : Context → ListVolumeOpts → M (List Volume)
  list_volumes outer opts = do
    ctx ← with_timeout outer max_operation_timeout
    (if ltb_ℤ (pos 0) opts.limit || ltb_ℤ (pos 0) opts.offset
        then list_volume_page ctx opts
        else list_pages ctx opts (suc volume_list_max_pages) [])

  unfoldable pub discover_volume : Context → DiscoverVolumeOpts → M Volume
  unfolding adopt
  discover_volume outer opts = do
    ctx ← with_timeout outer max_operation_timeout
    fail_when (is_blank opts.name) (only invalid_argument)
    candidates ← list_volumes ctx (by_name opts.name)
    adopt opts candidates
