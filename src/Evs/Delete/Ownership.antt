-- ===== src/Evs/Delete/Ownership.antt =====
-- internal/evs/volume.go: when `DeleteVolume` asks for a deletion, and what its success means.
use t_cloud_public_csi_drive.Common.{
  ap, sym, subst, ◌∙◌, Bool-cases, str_eq, Bool, true, some, Option, ◌⊎◌, inl, inr, zero, suc, ℕ,
  ◌≡◌, ◌≢◌, refl, String, false, none, ◌∷◌, arith, eq_iff, index,
}
use t_cloud_public_csi_drive.Text.{is_blank}
use t_cloud_public_csi_drive.Eff.{Result, ok, err, continue, ◌>>=◌}
use t_cloud_public_csi_drive.Errors.{Err, only, invalid_argument}
use t_cloud_public_csi_drive.Evs.Types.{Volume, V3Volume}
use t_cloud_public_csi_drive.Evs.Cloud.{
  with_timeout, fail_classified, fail_when, classified, M, delete_request, Cloud, Context, timeout,
  History, read_context, actions,
}
use t_cloud_public_csi_drive.Evs.Cloud.Changes.{changes, Keeps, keeping_rules}
use t_cloud_public_csi_drive.Eff.Rules.{Moves}
use t_cloud_public_csi_drive.Evs.Volume.{
  ownership_tag_key, ownership_tag_value, map_v3_volume_to_domain, get_volume,
  max_operation_timeout,
}
use t_cloud_public_csi_drive.Evs.Delete.{
  wait_for_volume_absence, Sighting, Seen, absent, present, broken, transient, absence_step,
  poll_absence, volume_status_deleting, volume_status_error_deleting, delete_observed,
  delete_volume,
}

-- A volume that may be deleted: the driver's own, and not in a deletion already.
pub record IsDeletable (vol : Volume) : Type 0 where
  pub owned : index vol.tags ownership_tag_key ≡ ownership_tag_value
  pub idle : vol.status ≢ volume_status_deleting
  pub intact : vol.status ≢ volume_status_error_deleting

module _ (cloud : Cloud) where
  get_volume-Keeps : (ctx : Context) (id : String) → Moves Keeps (get_volume cloud ctx id)
  unfolding get_volume with_timeout ◌>>=◌ changes
  get_volume-Keeps ctx id = search keeping_rules depth 20

  absence_step-Keeps :
      (s : Sighting) (seen : Seen) (next : Seen → M (Unit {0}))
      → ((seen' : Seen) → Moves Keeps (next seen'))
      → Moves Keeps (absence_step s seen next)
  unfolding absence_step
  absence_step-Keeps absent seen next c = search keeping_rules depth 20
  absence_step-Keeps (broken e) seen next c = search keeping_rules depth 20
  absence_step-Keeps present seen next c = c _
  absence_step-Keeps (transient e) seen next c = c _

  poll_absence-Keeps :
      (ctx : Context) (id : String) (left : ℕ) (seen : Seen)
      → Moves Keeps (poll_absence cloud ctx id left seen)
  unfolding poll_absence
  poll_absence-Keeps ctx id zero seen =
      search (keeping_rules, get_volume-Keeps, absence_step-Keeps) depth 20
  poll_absence-Keeps ctx id (suc left) seen =
      let later = poll_absence-Keeps ctx id left in
      search (keeping_rules, get_volume-Keeps, absence_step-Keeps, later) depth 20

  read_volume :
      (ctx : Context) (id : String) (h : History) (vol : Volume)
      → (get_volume cloud ctx id h).0 ≡ ok vol
      → (v : V3Volume) × (cloud.get id (read_context ∷ h) ≡ ok v)
        × (vol ≡ map_v3_volume_to_domain v)
  unfolding get_volume actions
  read_volume ctx id h vol e = go (cloud.get id (read_context ∷ h)) refl
    where
      go :
          (r : Result Err V3Volume)
          → cloud.get id (read_context ∷ h) ≡ r
          → (v : V3Volume) × (cloud.get id (read_context ∷ h) ≡ ok v)
            × (vol ≡ map_v3_volume_to_domain v)
      go (ok v) answer = (v, answer, ground arith)
      go (err x) answer = absurd (ground arith)

  -- No change, or one, the deletion of this volume, where it may be deleted.
  abbrev Outcome : String → Volume → History → History → Type 0
  Outcome id vol h now =
      Keeps h now ⊎ ((changes now ≡ delete_request id ∷ changes h) × IsDeletable vol)

  delete_observed_outcome :
      (ctx : Context) (id : String) (vol : Volume) (h : History)
      → Outcome id vol h (delete_observed cloud ctx id vol h).1
  unfolding delete_observed actions changes
  delete_observed_outcome ctx id vol h =
      elim (Bool-cases (str_eq (index vol.tags ownership_tag_key) ownership_tag_value)) [
        | inr foreign ↦ rw foreign (inl refl)
        | inl owned ↦ rw owned (elim (Bool-cases (str_eq vol.status volume_status_error_deleting)) [
          | inl failed ↦ rw failed (inl refl)
          | inr intact ↦ rw intact (elim (Bool-cases (str_eq vol.status volume_status_deleting)) [
            | inl begun ↦ rw begun (inl ((poll_absence-Keeps ctx id 59 _).at h))
            | inr idle ↦ rw idle (
                deleted (cloud.delete id h) (record {
                  owned = (eq_iff (index vol.tags ownership_tag_key) ownership_tag_value).0 owned;
                  idle = ground (arith, eq_iff vol.status volume_status_deleting);
                  intact = ground (arith, eq_iff vol.status volume_status_error_deleting);
                }))
          ])
        ])
      ]
    where
      deleted :
          (r : Result Err (Unit {0}))
          → IsDeletable vol
          → Outcome id vol h
              ((classified r >>= λ _. wait_for_volume_absence cloud ctx id)
                (delete_request id ∷ h)).1
      deleted (ok _) deletable =
          inr ((poll_absence-Keeps ctx id 59 _).at (delete_request id ∷ h), deletable)
      deleted (err e) deletable = inr (refl, deletable)

  -- The history after which `DeleteVolume` reads the volume.
  abbrev pub read_at : History → History
  read_at h = read_context ∷ read_context ∷ h

  -- Whatever the cloud answers: `DeleteVolume` makes no request that changes the cloud, or just one. That
  -- is the deletion of the volume of its identifier; and it had read that volume, which carries this
  -- driver's ownership tag and is neither in a deletion nor after a failed one.
  pub delete_volume_owned :
      (outer : Context) (id : String) (h : History)
      → (changes (delete_volume cloud outer id h).1 ≡ changes h)
        ⊎ ((v : V3Volume) × (cloud.get id (read_at h) ≡ ok v)
            × (changes (delete_volume cloud outer id h).1 ≡ delete_request id ∷ changes h)
            × IsDeletable (map_v3_volume_to_domain v))
  unfolding delete_volume actions changes
  delete_volume_owned outer id h = after_check (cloud.context_err ctx h) _ _ refl (
      after_test (is_blank id) _ _ refl
        (after_read (get_volume cloud ctx id (read_context ∷ h)) refl))
    where
      ctx : Context
      ctx = timeout outer max_operation_timeout h

      Owned : Result Err (Unit {0}) × History → Type 0
      Owned p =
          (changes p.1 ≡ changes h)
          ⊎ ((v : V3Volume) × (cloud.get id (read_at h) ≡ ok v)
              × (changes p.1 ≡ delete_request id ∷ changes h)
              × IsDeletable (map_v3_volume_to_domain v))

      after_check :
          (o : Option Err) (f : Unit {0} → M (Unit {0})) (s : History)
          → Keeps h s
          → Owned (f tt s)
          → Owned ((fail_classified o >>= f) s)
      after_check none f s keeps rest = rest
      after_check (some e) f s keeps rest = inl keeps

      after_test :
          (b : Bool) (f : Unit {0} → M (Unit {0})) (s : History)
          → Keeps h s
          → Owned (f tt s)
          → Owned ((fail_when b (only invalid_argument) >>= f) s)
      after_test false f s keeps rest = rest
      after_test true f s keeps rest = inl keeps

      after_read :
          (p : Result Err Volume × History)
          → get_volume cloud ctx id (read_context ∷ h) ≡ p
          → Owned (continue p.0 (delete_observed cloud ctx id) p.1)
      after_read (err e, s) read =
          inl (ap (λ p. changes p.1) (sym read) ∙ (get_volume-Keeps ctx id).at (read_context ∷ h))
      after_read (ok vol, s) read =
          let keeps : Keeps h s =
            ap (λ p. changes p.1) (sym read) ∙ (get_volume-Keeps ctx id).at (read_context ∷ h) in
          let (v, answer, same) = read_volume ctx id (read_context ∷ h) vol (ap (λ p. p.0) read) in
          elim (delete_observed_outcome ctx id vol s) [
            | inl none_made ↦ inl (none_made ∙ keeps)
            | inr (made, deletable) ↦ inr (
              v,
              answer,
              made ∙ ap (λ l. delete_request id ∷ l) keeps,
              subst IsDeletable same deletable,
            )
          ]
