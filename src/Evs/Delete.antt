-- ===== src/Evs/Delete.antt =====
-- internal/evs/volume.go: `DeleteVolume` and the poll for the volume's absence.
pub mod Ownership
pub mod Absence
use t_cloud_public_csi_drive.Common.{
  ℕ, zero, suc, ◌-◌, String, Bool, true, false, not, ◌||◌, Option, none, some, [], if◌then◌else◌,
  str_eq, index,
}
use t_cloud_public_csi_drive.Text.{is_blank}
use t_cloud_public_csi_drive.Eff.{Result, ok, err, pure, raise, attempt, ◌>>=◌, ◌>>◌}
use t_cloud_public_csi_drive.Errors.{
  not_found, not_owned, invalid_argument, operation_failed, canceled, deadline_exceeded, Err,
  errors_is, only,
}
use t_cloud_public_csi_drive.Evs.Types.{Volume}
use t_cloud_public_csi_drive.Evs.Classify.{classify_error_kind}
use t_cloud_public_csi_drive.Evs.Cloud.{
  Cloud, Context, M, delete_request, request, with_timeout, ctx_err, wait, fail_when,
  fail_classified, classified,
}
use t_cloud_public_csi_drive.Evs.Volume.{
  ownership_tag_key, ownership_tag_value, max_operation_timeout, is_transient, get_volume,
}

abbrev pub volume_status_deleting : String
volume_status_deleting = "deleting"

abbrev pub volume_status_error_deleting : String
volume_status_error_deleting = "error_deleting"

abbrev pub volume_absence_max_attempts : ℕ
volume_absence_max_attempts = 60

-- What one `GetVolume` of the poll means.
pub data Sighting : Type 0 where
  absent : Sighting
  present : Sighting
  transient : Err → Sighting
  broken : Err → Sighting

unfoldable pub sighting : Result Err Volume → Sighting
sighting (ok _) = present
sighting (err e) =
    if errors_is e not_found
    then absent
    else if errors_is e canceled || errors_is e deadline_exceeded
    then broken e
    else if not (is_transient (classify_error_kind e))
    then broken e
    else transient e

-- `observedPresent` and `lastTransient`.
pub record Seen : Type 0 where
  pub observed_present : Bool
  pub last_transient : Option Err

-- The error after the last attempt. `%w` of a nil error wraps nothing.
unfoldable pub exhausted : Seen → Err
exhausted seen =
    if seen.observed_present
    then only operation_failed
    else elim seen.last_transient [ some e ↦ e | none ↦ [] ]

-- One round of the loop, before the test for the last attempt.
unfoldable pub absence_step : Sighting → Seen → (Seen → M (Unit {0})) → M (Unit {0})
absence_step absent seen next = pure tt
absence_step (broken e) seen next = raise e
absence_step present seen next = next (record seen { observed_present = true })
absence_step (transient e) seen next = next (record seen { last_transient = some e })

module _ (cloud : Cloud) where
  -- The loop, with the attempts that are left after this one.
  unfoldable pub poll_absence : Context → String → ℕ → Seen → M (Unit {0})
  unfolding sighting exhausted absence_step
  poll_absence ctx id zero seen = do
    answer ← attempt (get_volume cloud ctx id)
    absence_step (sighting answer) seen (λ seen'. raise (exhausted seen'))
  poll_absence ctx id (suc left) seen = do
    answer ← attempt (get_volume cloud ctx id)
    absence_step (sighting answer) seen (λ seen'. do
      stopped ← wait cloud ctx
      fail_classified stopped
      poll_absence ctx id left seen')

  unfoldable pub wait_for_volume_absence : Context → String → M (Unit {0})
  wait_for_volume_absence ctx id =
      poll_absence ctx id (volume_absence_max_attempts - 1)
        (record { observed_present = false; last_transient = none })

  -- The `switch` on the status, up to the wait.
  unfoldable pub start_deletion : String → String → M (Unit {0})
  start_deletion id status =
      if str_eq status volume_status_error_deleting
      then raise (only operation_failed)
      else if str_eq status volume_status_deleting
      then pure tt
      else do answer ← attempt (request (delete_request id) (cloud.delete id)); classified answer

  -- `DeleteVolume` from the volume that it has read.
  unfoldable pub delete_observed : Context → String → Volume → M (Unit {0})
  unfolding start_deletion wait_for_volume_absence
  delete_observed ctx id vol = do
    fail_when (not (str_eq (index vol.tags ownership_tag_key) ownership_tag_value)) (only not_owned)
    start_deletion id vol.status
    wait_for_volume_absence ctx id

  unfoldable pub delete_volume : Context → String → M (Unit {0})
  unfolding delete_observed
  delete_volume outer id = do
    ctx ← with_timeout outer max_operation_timeout
    stopped ← ctx_err cloud ctx
    fail_classified stopped
    fail_when (is_blank id) (only invalid_argument)
    vol ← get_volume cloud ctx id
    delete_observed ctx id vol
