-- ===== src/Evs/Effects.antt =====
-- internal/evs: no operation of the client makes more than one request that changes the cloud.
use t_cloud_public_csi_drive.Common.{ℕ, zero, suc, String, Option, none, some, List, [], ◌∷◌}
use t_cloud_public_csi_drive.Evs.Types.{
  CreateVolumeOpts, ListVolumeOpts, DiscoverVolumeOpts, Volume,
}
use t_cloud_public_csi_drive.Evs.Cloud.{Cloud, Context, M}
use t_cloud_public_csi_drive.Evs.Cloud.Effects.{
  Spends, Spends-pure, Spends-raise, Spends-attempt, Spends-classified, Spends-request, Spends-bind,
  Spends-then, Spends-with_timeout, Spends-ctx_err, Spends-wait, Spends-fail_when,
  Spends-fail_classified, Spends-if, reading_rules,
}
use t_cloud_public_csi_drive.Evs.Volume.{
  observe_job, wait_for_job_success, get_volume, create_volume,
}
use t_cloud_public_csi_drive.Evs.Listing.{
  choose, adopt, after_page, list_volume_page, list_pages, list_volumes, discover_volume,
}
use t_cloud_public_csi_drive.Evs.Delete.{
  Sighting, absent, present, transient, broken, sighting, Seen, absence_step, poll_absence,
  start_deletion, delete_volume,
}

module _ (cloud : Cloud) where
  pub get_volume-reads : (ctx : Context) (id : String) → Spends 0 (get_volume cloud ctx id)
  unfolding get_volume
  get_volume-reads ctx id = search reading_rules depth 20

  observe_job-reads : (ctx : Context) (path id : String) → Spends 0 (observe_job cloud ctx path id)
  unfolding observe_job
  observe_job-reads ctx path id = search reading_rules depth 20

  wait_for_job-reads : (ctx : Context) (id : String) → Spends 0 (wait_for_job_success cloud ctx id)
  unfolding wait_for_job_success
  wait_for_job-reads ctx id = search (reading_rules, observe_job-reads) depth 20

  -- `CreateVolume` makes at most one request that changes the cloud, however its job goes.
  pub create_volume-Spends :
      (ctx : Context) (opts : CreateVolumeOpts) → Spends 1 (create_volume cloud ctx opts)
  unfolding create_volume
  create_volume-Spends ctx opts = Spends-bind (Spends-with_timeout ctx _) (λ ctx.
      Spends-bind (Spends-ctx_err cloud ctx) (λ o. Spends-bind (Spends-fail_classified o) (λ _.
        Spends-bind (Spends-fail_when _ _) (λ _. Spends-bind (Spends-fail_when _ _) (λ _.
          Spends-bind (Spends-fail_when _ _) (λ _.
            Spends-then (Spends-attempt (Spends-request _ _)) (λ answer.
              Spends-bind (Spends-classified answer) (λ job_id.
                Spends-bind (Spends-fail_when _ _) (λ _.
                  Spends-bind (Spends-attempt (wait_for_job-reads ctx job_id)) (λ waited.
                    Spends-bind (Spends-classified waited)
                      (λ vol_id. get_volume-reads ctx vol_id)))))))))))

  list_volume_page-reads :
      (ctx : Context) (opts : ListVolumeOpts) → Spends 0 (list_volume_page cloud ctx opts)
  unfolding list_volume_page
  list_volume_page-reads ctx opts = search reading_rules depth 20

  after_page-reads :
      (res page : List Volume) (later : List Volume → M (List Volume))
      → ((l : List Volume) → Spends 0 (later l))
      → Spends 0 (after_page res page later)
  after_page-reads res [] later c = Spends-pure res
  after_page-reads res (v ∷ vs) later c = c _

  list_pages-reads :
      (ctx : Context) (opts : ListVolumeOpts) (rounds : ℕ) (res : List Volume)
      → Spends 0 (list_pages cloud ctx opts rounds res)
  unfolding list_pages
  list_pages-reads ctx opts zero res = Spends-raise _
  list_pages-reads ctx opts (suc rounds) res =
      Spends-bind (list_volume_page-reads ctx _)
        (λ page. after_page-reads res page _ (list_pages-reads ctx opts rounds))

  list_volumes-reads :
      (ctx : Context) (opts : ListVolumeOpts) → Spends 0 (list_volumes cloud ctx opts)
  unfolding list_volumes
  list_volumes-reads ctx opts =
      search (reading_rules, list_volume_page-reads, list_pages-reads) depth 20

  adopt-reads : (opts : DiscoverVolumeOpts) (l : List Volume) → Spends 0 (adopt opts l)
  unfolding adopt
  adopt-reads opts l = choose-reads _ _
    where
      choose-reads : (named : List Volume) (o : Option Volume) → Spends 0 (choose named o)
      choose-reads [] o = Spends-raise _
      choose-reads (v ∷ vs) (some vol) = Spends-pure vol
      choose-reads (v ∷ vs) none = Spends-raise _

  pub discover_volume-reads :
      (ctx : Context) (opts : DiscoverVolumeOpts) → Spends 0 (discover_volume cloud ctx opts)
  unfolding discover_volume
  discover_volume-reads ctx opts = search (reading_rules, list_volumes-reads, adopt-reads) depth 20

  absence_step-reads :
      (s : Sighting) (seen : Seen) (next : Seen → M (Unit {0}))
      → ((seen' : Seen) → Spends 0 (next seen'))
      → Spends 0 (absence_step s seen next)
  unfolding absence_step
  absence_step-reads absent seen next c = Spends-pure tt
  absence_step-reads (broken e) seen next c = Spends-raise e
  absence_step-reads present seen next c = c _
  absence_step-reads (transient e) seen next c = c _

  pub poll_absence-reads :
      (ctx : Context) (id : String) (left : ℕ) (seen : Seen)
      → Spends 0 (poll_absence cloud ctx id left seen)
  unfolding poll_absence
  poll_absence-reads ctx id zero seen =
      Spends-bind (Spends-attempt (get_volume-reads ctx id))
        (λ r. absence_step-reads (sighting r) seen _ (λ s. Spends-raise _))
  poll_absence-reads ctx id (suc left) seen =
      Spends-bind (Spends-attempt (get_volume-reads ctx id)) (λ r.
        absence_step-reads (sighting r) seen _ (λ s.
          Spends-bind (Spends-wait cloud ctx)
            (λ o. Spends-bind (Spends-fail_classified o) (λ _. poll_absence-reads ctx id left s))))

  start_deletion-Spends : (id status : String) → Spends 1 (start_deletion cloud id status)
  unfolding start_deletion
  start_deletion-Spends id status = Spends-if _ _ _ (Spends-raise _) (
      Spends-if _ _ _ (Spends-pure tt)
        (Spends-then (Spends-attempt (Spends-request _ _)) Spends-classified))

  -- `DeleteVolume` makes at most one request that changes the cloud, however often it polls.
  pub delete_volume-Spends : (ctx : Context) (id : String) → Spends 1 (delete_volume cloud ctx id)
  unfolding delete_volume
  delete_volume-Spends ctx id = Spends-bind (Spends-with_timeout ctx _) (λ ctx.
      Spends-bind (Spends-ctx_err cloud ctx) (λ o. Spends-bind (Spends-fail_classified o) (λ _.
        Spends-bind (Spends-fail_when _ _) (λ _. Spends-bind (get_volume-reads ctx id) (λ vol.
          Spends-bind (Spends-fail_when _ _) (λ _.
            Spends-then (start_deletion-Spends id vol.status)
              (λ _. poll_absence-reads ctx id _ _)))))))
