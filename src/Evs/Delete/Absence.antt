-- ===== src/Evs/Delete/Absence.antt =====
-- internal/evs/volume.go: what the success of `DeleteVolume` means.
use t_cloud_public_csi_drive.Common.{ℕ, zero, suc, ◌≡◌, refl, subst, arith, String, true}
use t_cloud_public_csi_drive.Eff.{Result, ok, err, attempt, ◌>>=◌}
use t_cloud_public_csi_drive.Eff.Rules.{Good, EndsIn, EndsIn-raise, EndsIn-bind}
use t_cloud_public_csi_drive.Errors.{Err, errors_is, not_found}
use t_cloud_public_csi_drive.Evs.Types.{Volume}
use t_cloud_public_csi_drive.Evs.Cloud.{Cloud, Context, History, M}
use t_cloud_public_csi_drive.Evs.Cloud.Outcomes.{Any}
use t_cloud_public_csi_drive.Evs.Volume.{get_volume}
use t_cloud_public_csi_drive.Evs.Delete.{
  Sighting, absent, present, transient, broken, sighting, Seen, absence_step, poll_absence,
  delete_volume,
}

sighting-absent :
    (r : Result Err Volume)
    → sighting r ≡ absent
    → (e : Err) × (r ≡ err e) × (errors_is e not_found ≡ true)
unfolding sighting
sighting-absent (ok v) eq = absurd (ground arith)
sighting-absent (err e) eq = (e, refl, ground arith)

module _ (cloud : Cloud) (id : String) where
  -- The last thing that happened is a `GetVolume` that reported that there is no such volume.
  pub record SeenAbsent (now : History) : Type 0 where
    pub looked : Context
    pub before : History
    pub answer : Err
    pub raised : (get_volume cloud looked id before).0 ≡ err answer
    pub missing : errors_is answer not_found ≡ true
    pub last : now ≡ (get_volume cloud looked id before).1

  look_then :
      (ctx : Context) (seen : Seen) (next : Seen → M (Unit {0}))
      → ((seen' : Seen) → EndsIn SeenAbsent (next seen'))
      → EndsIn SeenAbsent
          (attempt (get_volume cloud ctx id) >>= λ r. absence_step (sighting r) seen next)
  unfolding ◌>>=◌ absence_step
  look_then ctx seen next rest = record {
    at = λ h.
        let p = get_volume cloud ctx id h in
        go p.0 p.1
          (λ e raised missing. record {
            looked = ctx;
            before = h;
            answer = e;
            raised = raised;
            missing = missing;
            last = refl;
          })
          (sighting p.0) refl;
  }
    where
      go :
          (r : Result Err Volume) (now : History)
          → ((e : Err) → r ≡ err e → errors_is e not_found ≡ true → SeenAbsent now)
          → (s : Sighting) → sighting r ≡ s
          → Good
              (λ _. SeenAbsent (absence_step s seen next now).1)
              Any
              (absence_step s seen next now).0
      go r now found absent eq =
          let (e, raised, missing) = sighting-absent r eq in found e raised missing
      go r now found (broken e) eq = tt
      go r now found present eq = (rest _).at now
      go r now found (transient e) eq = (rest _).at now

  poll_absence-SeenAbsent :
      (ctx : Context) (left : ℕ) (seen : Seen)
      → EndsIn SeenAbsent (poll_absence cloud ctx id left seen)
  unfolding poll_absence
  poll_absence-SeenAbsent ctx zero seen = look_then ctx seen _ (λ s. EndsIn-raise _)
  poll_absence-SeenAbsent ctx (suc left) seen =
      look_then ctx seen _
        (λ s. EndsIn-bind _ _ (λ o. EndsIn-bind _ _ (λ _. poll_absence-SeenAbsent ctx left s)))

  delete_volume-EndsIn : (outer : Context) → EndsIn SeenAbsent (delete_volume cloud outer id)
  unfolding delete_volume
  delete_volume-EndsIn outer = EndsIn-bind _ _ (λ ctx. EndsIn-bind _ _ (λ _. EndsIn-bind _ _ (λ _.
      EndsIn-bind _ _ (λ _.
        EndsIn-bind _ _
          (λ vol. EndsIn-bind _ _ (λ _. EndsIn-bind _ _ (λ _. poll_absence-SeenAbsent ctx _ _)))))))

  -- If `DeleteVolume` succeeds, then the last thing it did is a read of the volume that reported
  -- that it does not exist: an accepted deletion request alone is never success.
  pub delete_volume-SeenAbsent :
      (outer : Context) (h : History)
      → (delete_volume cloud outer id h).0 ≡ ok tt
      → SeenAbsent (delete_volume cloud outer id h).1
  delete_volume-SeenAbsent outer h done =
      subst (Good (λ _. SeenAbsent (delete_volume cloud outer id h).1) Any) done
        ((delete_volume-EndsIn outer).at h)
