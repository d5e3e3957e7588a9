-- ===== src/Evs/Listing/Pages.antt =====
-- internal/evs/volume.go: `ListVolumes` over a service that pages through one listing.
use t_cloud_public_csi_drive.Common.{
  ℕ, zero, suc, ◌*◌, ◌≤◌, ◌<◌, ◌≡◌, ◌≢◌, refl, List, [], ◌∷◌, ◌++◌, map, length, take, drop, none,
  arith, length-map, take-append-drop, take-nil, map-take-ne-nil, length-drop, drop-append, ap, ◌∙◌,
}
use mathlib.Core.List.{append-nil, append_assoc, map-append}
use t_cloud_public_csi_drive.Common.Int.{pos}
use t_cloud_public_csi_drive.Eff.{ok, err}
use t_cloud_public_csi_drive.Errors.{operation_failed, only}
use t_cloud_public_csi_drive.Evs.Types.{V2Volume, Volume, ListVolumeOpts}
use t_cloud_public_csi_drive.Evs.Cloud.{
  Cloud, Context, timeout, History, actions, list_request, read_context,
}
use t_cloud_public_csi_drive.Evs.Volume.{max_operation_timeout, map_v2_volume_to_domain}
use t_cloud_public_csi_drive.Evs.Listing.{
  discovery_page_size, list_volume_page, list_pages, list_volumes,
}

-- The service answers each page of a filter from one listing that does not change meanwhile, and
-- the context does not end.
pub record Serves (cloud : Cloud) (ctx : Context) (opts : ListVolumeOpts) (all : List V2Volume)
    : Type 0 where
  pub page :
      (offset : ℕ) (h : History)
      → cloud.list (record opts { limit = pos discovery_page_size; offset = pos offset }) h
        ≡ ok (take discovery_page_size (drop offset all))
  pub alive : (h : History) → cloud.context_err ctx h ≡ none

module _ (cloud : Cloud) (ctx : Context) (opts : ListVolumeOpts) (all : List V2Volume)
    (serves : Serves cloud ctx opts all) where
  abbrev page_opts : ℕ → ListVolumeOpts
  page_opts offset = record opts { limit = pos discovery_page_size; offset = pos offset }

  abbrev page_history : ℕ → History → History
  page_history offset h = list_request (page_opts offset) ∷ read_context ∷ h

  page_lem :
      (offset : ℕ) (h : History)
      → list_volume_page cloud ctx (page_opts offset) h ≡ (
        ok (map map_v2_volume_to_domain (take discovery_page_size (drop offset all))),
        page_history offset h,
      )
  unfolding list_volume_page actions
  page_lem offset h = ground (arith, serves.alive h, serves.page offset (read_context ∷ h))

  -- The page at the end of what is listed already.
  next_page :
      (front back : List V2Volume) (h : History)
      → all ≡ front ++ back
      → list_volume_page cloud ctx (page_opts (length (map map_v2_volume_to_domain front))) h ≡ (
        ok (map map_v2_volume_to_domain (take discovery_page_size back)),
        page_history (length (map map_v2_volume_to_domain front)) h,
      )
  next_page front back h e =
      page_lem _ h
      ∙ ap
          (λ b. (
            ok (map map_v2_volume_to_domain (take discovery_page_size b)),
            page_history (length (map map_v2_volume_to_domain front)) h,
          ))
          (rw length-map (rw e (drop-append front back)))

  next_page_nil :
      (front : List V2Volume) (h : History)
      → all ≡ front ++ []
      → list_volume_page cloud ctx (page_opts (length (map map_v2_volume_to_domain front))) h
        ≡ (ok [], page_history (length (map map_v2_volume_to_domain front)) h)
  next_page_nil front h e = rw (next_page front [] h e) (rw take-nil)

  -- A page with volumes goes to the next round, and an empty page ends the loop.
  pages_more :
      (rounds : ℕ) (res page : List Volume) (h h' : History)
      → page ≢ []
      → list_volume_page cloud ctx (page_opts (length res)) h ≡ (ok page, h')
      → list_pages cloud ctx opts (suc rounds) res h
        ≡ list_pages cloud ctx opts rounds (res ++ page) h'
  unfolding list_pages actions
  pages_more rounds res [] h h' ne e = absurd (ne refl)
  pages_more rounds res (v ∷ vs) h h' ne e = rw e

  pages_done :
      (rounds : ℕ) (res : List Volume) (h h' : History)
      → list_volume_page cloud ctx (page_opts (length res)) h ≡ (ok [], h')
      → list_pages cloud ctx opts (suc rounds) res h ≡ (ok res, h')
  unfolding list_pages actions
  pages_done rounds res h h' e = rw e

  -- A round with something left: the page joins what is listed.
  pages_step :
      (rounds : ℕ) (front : List V2Volume) (v : V2Volume) (vs : List V2Volume) (h : History)
      → all ≡ front ++ v ∷ vs
      → list_pages cloud ctx opts (suc rounds) (map map_v2_volume_to_domain front) h
        ≡ list_pages cloud ctx opts rounds
            (map map_v2_volume_to_domain (front ++ take discovery_page_size (v ∷ vs)))
            (page_history (length (map map_v2_volume_to_domain front)) h)
  pages_step rounds front v vs h e = rw map-append (
      pages_more rounds (map map_v2_volume_to_domain front) _ h _
        (map-take-ne-nil map_v2_volume_to_domain 99 v vs) (next_page front (v ∷ vs) h e))

  -- What is left after the page.
  rest_of_all :
      (front back : List V2Volume)
      → all ≡ front ++ back
      → all ≡ (front ++ take discovery_page_size back) ++ drop discovery_page_size back
  rest_of_all front back e = rw append_assoc (rw take-append-drop e)

  list_pages_complete :
      (rounds : ℕ) (front back : List V2Volume) (h : History)
      → all ≡ front ++ back
      → length back ≤ rounds * discovery_page_size
      → (list_pages cloud ctx opts (suc rounds) (map map_v2_volume_to_domain front) h).0
        ≡ ok (map map_v2_volume_to_domain all)
  list_pages_complete rounds front [] h e le =
      rw (pages_done rounds (map map_v2_volume_to_domain front) h _ (next_page_nil front h e))
        (rw e (rw append-nil))
  list_pages_complete zero front (v ∷ vs) h e le = absurd (omega arith)
  list_pages_complete (suc rounds) front (v ∷ vs) h e le =
      rw (pages_step (suc rounds) front v vs h e) (
        list_pages_complete rounds (front ++ take discovery_page_size (v ∷ vs))
          (drop discovery_page_size (v ∷ vs)) _ (rest_of_all front (v ∷ vs) e)
          (omega (arith, length-drop discovery_page_size (v ∷ vs))))

  list_pages_over :
      (rounds : ℕ) (front back : List V2Volume) (h : History)
      → all ≡ front ++ back
      → rounds * discovery_page_size < length back
      → (list_pages cloud ctx opts (suc rounds) (map map_v2_volume_to_domain front) h).0
        ≡ err (only operation_failed)
  list_pages_over rounds front [] h e lt = absurd (omega arith)
  list_pages_over zero front (v ∷ vs) h e lt =
      rw (pages_step zero front v vs h e) (unfold list_pages actions in refl)
  list_pages_over (suc rounds) front (v ∷ vs) h e lt = rw (pages_step (suc rounds) front v vs h e) (
      list_pages_over rounds (front ++ take discovery_page_size (v ∷ vs))
        (drop discovery_page_size (v ∷ vs)) _ (rest_of_all front (v ∷ vs) e)
        (omega (arith, length-drop discovery_page_size (v ∷ vs))))

module _ (cloud : Cloud) (outer : Context) (opts : ListVolumeOpts) (all : List V2Volume)
    (h : History) (serves : Serves cloud (timeout outer max_operation_timeout h) opts all)
    (unlimited : opts.limit ≡ pos 0) (from_start : opts.offset ≡ pos 0) where
  -- Over a service that pages through one listing, and a context that does not end: a listing by any
  -- filter, without a limit or an offset of its own, gives the whole listing, in order, up to 5000
  -- volumes.
  pub list_volumes_complete :
      length all ≤ 5000 → (list_volumes cloud outer opts h).0 ≡ ok (map map_v2_volume_to_domain all)
  unfolding list_volumes actions list_pages
  list_volumes_complete le = rw unlimited (
      rw from_start (
        list_pages_complete cloud (timeout outer max_operation_timeout h) opts all serves 50 [] all
          h refl le))

  -- Over such a service with more than 5000 volumes the same listing fails, and gives no part of them.
  pub list_volumes_over :
      5000 < length all → (list_volumes cloud outer opts h).0 ≡ err (only operation_failed)
  unfolding list_volumes actions list_pages
  list_volumes_over lt = rw unlimited (
      rw from_start (
        list_pages_over cloud (timeout outer max_operation_timeout h) opts all serves 50 [] all h
          refl lt))
