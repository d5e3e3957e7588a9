-- ===== src/Examples/Volumes.antt =====
-- Tests of the volume operations of internal/evs.
use t_cloud_public_csi_drive.Common.{
  ◌≡◌, ◌≢◌, refl, ◌⊎◌, true, false, List, [], ◌∷◌, map, Memᴰ, All, arith, index, text_leb, repeat,
  length-repeat, str_eq, eq_iff, sort,
}
use t_cloud_public_csi_drive.Text.{is_blank, cut_prefix}
use t_cloud_public_csi_drive.Common.Int.{pos}
use t_cloud_public_csi_drive.Eff.{ok, err}
use t_cloud_public_csi_drive.Eff.Rules.{Yields}
use t_cloud_public_csi_drive.Errors.{
  errors_is, is_http_default, not_found, conflict, operation_failed, only,
}
use t_cloud_public_csi_drive.Evs.Types.{
  ListVolumeOpts, Volume, V2Volume, V3Volume, DiscoverVolumeOpts,
}
use t_cloud_public_csi_drive.Evs.Cloud.{delete_request, caller, timeout, actions}
use t_cloud_public_csi_drive.Evs.Cloud.Polling.{Loop}
use t_cloud_public_csi_drive.Evs.Cloud.Effects.{effects}
use t_cloud_public_csi_drive.Evs.Cloud.Outcomes.{Any}
use t_cloud_public_csi_drive.Evs.Classify.{classify_error, classify_foreign}
use t_cloud_public_csi_drive.Evs.Volume.{
  get_volume, map_v2_volume_to_domain, map_v3_volume_to_domain, max_operation_timeout,
  job_status_endpoint, observe_job, wait_for_job_success,
}
use t_cloud_public_csi_drive.Evs.Volume.Waits.{wait_for_job_success_ends}
use t_cloud_public_csi_drive.Evs.Listing.{
  is_adoptable, adopt, by_name, list_volumes, discover_volume,
}
use t_cloud_public_csi_drive.Evs.Listing.Pages.{Serves, list_volumes_complete, list_volumes_over}
use t_cloud_public_csi_drive.Evs.Listing.Adoption.{Chosen, adopt_outcome, adopt_any_order}
use t_cloud_public_csi_drive.Evs.Listing.Discovery.{Usable, discover_volume-Usable}
use t_cloud_public_csi_drive.Evs.Delete.{delete_volume, poll_absence}
use t_cloud_public_csi_drive.Evs.Cloud.Changes.{changes}
use t_cloud_public_csi_drive.Evs.Delete.Ownership.{IsDeletable, delete_volume_owned, read_at}
use t_cloud_public_csi_drive.Evs.Delete.Absence.{SeenAbsent, delete_volume-SeenAbsent}
use t_cloud_public_csi_drive.Examples.{
  timed_out, listed_volume, sample_cloud, sample_cloud-Expires, steady_cloud,
}

-- To open this opens what a run of a deletion computes.
unfoldable deletion_run : Unit {0}
unfolding delete_volume actions effects timed_out is_blank get_volume index map_v3_volume_to_domain
    poll_absence errors_is classify_error classify_foreign is_http_default
deletion_run = tt

delete_volume_test : (delete_volume sample_cloud caller "vol-1" []).0 ≡ ok tt
unfolding deletion_run
delete_volume_test = refl

delete_effect_test :
    changes (delete_volume sample_cloud caller "vol-1" []).1 ≡ delete_request "vol-1" ∷ []
unfolding deletion_run changes
delete_effect_test = refl

delete_volume_owned_example :
    (changes (delete_volume sample_cloud caller "vol-1" []).1 ≡ changes [])
    ⊎ ((v : V3Volume) × (sample_cloud.get "vol-1" (read_at sample_cloud []) ≡ ok v)
        × (changes (delete_volume sample_cloud caller "vol-1" []).1
            ≡ delete_request "vol-1" ∷ changes [])
        × IsDeletable (map_v3_volume_to_domain v))
delete_volume_owned_example = delete_volume_owned sample_cloud caller "vol-1" []

delete_volume-SeenAbsent_example :
    SeenAbsent sample_cloud "vol-1" (delete_volume sample_cloud caller "vol-1" []).1
delete_volume-SeenAbsent_example =
    delete_volume-SeenAbsent sample_cloud "vol-1" caller [] delete_volume_test

abbrev wanted : DiscoverVolumeOpts
wanted = record {
  name = "pvc-1";
  availability_zone = "eu-de-01";
  volume_type = "SSD";
  min_size_gib = pos 10;
  max_size_gib = pos 20;
}

abbrev first_volume : Volume
first_volume = map_v2_volume_to_domain (listed_volume "vol-1")

abbrev second_volume : Volume
second_volume = map_v2_volume_to_domain (listed_volume "vol-2")

discover_volume-Usable_example :
    Yields (Usable wanted) Any (discover_volume sample_cloud caller wanted)
discover_volume-Usable_example = discover_volume-Usable sample_cloud caller wanted

adopt_outcome_example :
    ((adopt wanted (second_volume ∷ first_volume ∷ []) [] ≡ (err (only not_found), []))
      × All (λ v. str_eq v.name "pvc-1" ≡ false) (second_volume ∷ first_volume ∷ []))
    ⊎ ((vol : Volume) × (adopt wanted (second_volume ∷ first_volume ∷ []) [] ≡ (ok vol, []))
        × Chosen wanted (second_volume ∷ first_volume ∷ []) vol)
    ⊎ ((adopt wanted (second_volume ∷ first_volume ∷ []) [] ≡ (err (only conflict), []))
        × ((v : Volume) × Memᴰ v (second_volume ∷ first_volume ∷ [])
            × (str_eq v.name "pvc-1" ≡ true))
        × All
            (λ v. str_eq v.name "pvc-1" ≡ true → is_adoptable v wanted ≡ false)
            (second_volume ∷ first_volume ∷ []))
adopt_outcome_example = adopt_outcome wanted (second_volume ∷ first_volume ∷ []) []

adopt_test : adopt wanted (second_volume ∷ first_volume ∷ []) [] ≡ (ok first_volume, [])
unfolding adopt actions sort text_leb is_adoptable index map_v2_volume_to_domain
adopt_test = refl

abbrev forth : List Volume
forth = first_volume ∷ second_volume ∷ []

abbrev back : List Volume
back = second_volume ∷ first_volume ∷ []

first_adoptable : is_adoptable first_volume wanted ≡ true
unfolding is_adoptable index map_v2_volume_to_domain
first_adoptable = refl

ids_differ : first_volume.id ≢ second_volume.id
unfolding map_v2_volume_to_domain
ids_differ e = ground (arith, eq_iff "vol-1" "vol-2")

back_distinct : (a b : Volume) → Memᴰ a back → Memᴰ b back → a.id ≡ b.id → a ≡ b
back_distinct a b (Memᴰ.head e) (Memᴰ.head f) same = cc
back_distinct a b (Memᴰ.head e) (Memᴰ.tail (Memᴰ.head f)) same = absurd (ids_differ cc)
back_distinct a b (Memᴰ.head e) (Memᴰ.tail (Memᴰ.tail m)) same = elim m [ ]
back_distinct a b (Memᴰ.tail (Memᴰ.head e)) (Memᴰ.head f) same = absurd (ids_differ cc)
back_distinct a b (Memᴰ.tail (Memᴰ.head e)) (Memᴰ.tail (Memᴰ.head f)) same = cc
back_distinct a b (Memᴰ.tail (Memᴰ.head e)) (Memᴰ.tail (Memᴰ.tail m)) same = elim m [ ]
back_distinct a b (Memᴰ.tail (Memᴰ.tail m)) _ same = elim m [ ]

adopt_any_order_example : adopt wanted forth [] ≡ adopt wanted back []
adopt_any_order_example =
    adopt_any_order wanted forth back [] (Memᴰ.tail (Memᴰ.head refl), (Memᴰ.head refl, tt))
      (Memᴰ.tail (Memᴰ.head refl), (Memᴰ.head refl, tt)) back_distinct

abbrev in_one_zone : ListVolumeOpts
in_one_zone = record (by_name "pvc-1") { availability_zone = "eu-de-01"; status = "available" }

steady-Serves :
    (l : List V2Volume)
    → Serves (steady_cloud l) (timeout caller max_operation_timeout []) in_one_zone l
steady-Serves l = record { page = λ offset h. refl; alive = λ h. refl }

list_volumes_complete_example :
    (list_volumes (steady_cloud (repeat 250 (listed_volume "vol-1"))) caller in_one_zone []).0
    ≡ ok (map map_v2_volume_to_domain (repeat 250 (listed_volume "vol-1")))
list_volumes_complete_example =
    list_volumes_complete (steady_cloud (repeat 250 (listed_volume "vol-1"))) caller in_one_zone
      (repeat 250 (listed_volume "vol-1")) [] (steady-Serves (repeat 250 (listed_volume "vol-1")))
      refl refl (omega (arith, length-repeat 250 (listed_volume "vol-1")))

list_volumes_over_example :
    (list_volumes (steady_cloud (repeat 5001 (listed_volume "vol-1"))) caller in_one_zone []).0
    ≡ err (only operation_failed)
list_volumes_over_example =
    list_volumes_over (steady_cloud (repeat 5001 (listed_volume "vol-1"))) caller in_one_zone
      (repeat 5001 (listed_volume "vol-1")) [] (steady-Serves (repeat 5001 (listed_volume "vol-1")))
      refl refl (omega (arith, length-repeat 5001 (listed_volume "vol-1")))

job_status_endpoint_test : job_status_endpoint sample_cloud.endpoint_path ≡ ok "/v1/project"
unfolding job_status_endpoint cut_prefix
job_status_endpoint_test = refl

wait_for_job_success_ends_example :
    Loop sample_cloud
      (timeout caller 600 [])
      (observe_job sample_cloud (timeout caller 600 []) "/v1/project" "job-1")
      []
      (wait_for_job_success sample_cloud (timeout caller 600 []) "job-1" [])
wait_for_job_success_ends_example =
    wait_for_job_success_ends sample_cloud caller 600 [] [] "/v1/project" "job-1"
      sample_cloud-Expires (omega arith) (omega arith) job_status_endpoint_test
