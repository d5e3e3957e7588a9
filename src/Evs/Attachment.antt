-- ===== src/Evs/Attachment.antt =====
-- internal/evs/attachment.go: `AttachVolume` and `DetachVolume`, with the reconciliation of a refused
-- or a failed request.
pub mod Observe
pub mod Waits
pub mod Settled
pub mod Effects
pub mod Attach
pub mod Detach
use t_cloud_public_csi_drive.Common.{
  ℕ, String, Bool, true, false, not, ◌||◌, Option, none, some, List, [], ◌∷◌, any, if◌then◌else◌,
  str_eq,
}
use t_cloud_public_csi_drive.Text.{trim_space, is_blank}
use t_cloud_public_csi_drive.Eff.{Result, ok, err}
use t_cloud_public_csi_drive.Errors.{Err, plain}
use t_cloud_public_csi_drive.Evs.Types.{Attachment, SdkAttachment, V3Volume, JobStatus}
use t_cloud_public_csi_drive.Evs.Classify.{classify_error_kind}
use t_cloud_public_csi_drive.Evs.Cloud.{Verdict, settled, again}
use t_cloud_public_csi_drive.Evs.Volume.{is_transient, job_poll_should_stop}

abbrev pub volume_status_attaching : String
volume_status_attaching = "attaching"

abbrev pub volume_status_detaching : String
volume_status_detaching = "detaching"

-- `refusedAttachReconcileWindow` and `refusedDetachReconcileWindow`, in seconds.
abbrev pub refused_attach_reconcile_window : ℕ
refused_attach_reconcile_window = 90

abbrev pub refused_detach_reconcile_window : ℕ
refused_detach_reconcile_window = 90

abbrev pub detach_keep_volume : ℕ
detach_keep_volume = 0

unfoldable pub attached_with_device : Option Attachment → Bool
attached_with_device none = false
attached_with_device (some a) = not (str_eq a.device_name "")

unfoldable pub detached : Option Attachment → Bool
detached none = true
detached (some _) = false

unfoldable pub validate_attachment_input : String → String → Bool
validate_attachment_input volume_id server_id = not (is_blank volume_id || is_blank server_id)

-- The loop of `observeAttachment` over the listed attachments.
unfoldable pub match_attachment : String → String → List SdkAttachment → Option Attachment
match_attachment volume_id server_id [] = none
match_attachment volume_id server_id (a ∷ as') =
    let rest = match_attachment volume_id server_id as' in
    if not (str_eq a.volume_id volume_id) || not (str_eq a.server_id server_id)
    then rest
    else some (record {
      volume_id = a.volume_id;
      server_id = a.server_id;
      device_name = trim_space a.device;
    })

unfoldable pub listed_attachment : String → String → Option (List SdkAttachment) → Option Attachment
unfolding match_attachment
listed_attachment volume_id server_id none = none
listed_attachment volume_id server_id (some l) = match_attachment volume_id server_id l

-- What the volume record shows after compute refused an attach.
pub data RefusalProbeReading : Type 0 where
  probe_denied probe_in_flight probe_attached_elsewhere : RefusalProbeReading

abbrev names_server : String → List SdkAttachment → Bool
names_server server_id l = any (λ a. str_eq a.server_id server_id) l

abbrev is_nonempty : List SdkAttachment → Bool
is_nonempty [] = false
is_nonempty (_ ∷ _) = true

unfoldable pub read_attach_probe : String → V3Volume → RefusalProbeReading
read_attach_probe server_id detail =
    if names_server server_id detail.attachments
    then probe_in_flight
    else if is_nonempty detail.attachments
    then probe_attached_elsewhere
    else if str_eq detail.status volume_status_attaching
    then probe_in_flight
    else probe_denied

unfoldable pub read_detach_probe : String → V3Volume → Bool
read_detach_probe server_id detail =
    if str_eq detail.status volume_status_attaching || str_eq detail.status volume_status_detaching
    then true
    else names_server server_id detail.attachments

-- What one answer of the compute jobs means for the loop.
unfoldable pub server_job_verdict : Result Err JobStatus → Result Err (Verdict (Unit {0}))
unfolding job_poll_should_stop
server_job_verdict (ok job) =
    if str_eq job.status "SUCCESS"
    then ok (settled tt)
    else if str_eq job.status "FAIL"
    then err plain
    else ok again
server_job_verdict (err e) = if job_poll_should_stop e then err e else ok again

-- What one observation means for `waitForAttachmentState`.
unfoldable pub state_verdict :
    (Option Attachment → Bool)
    → Result Err (Option Attachment)
    → Result Err (Verdict (Option Attachment))
state_verdict is_settled (ok a) = if is_settled a then ok (settled a) else ok again
state_verdict is_settled (err e) =
    if not (is_transient (classify_error_kind e)) then err e else ok again

-- `job == nil || strings.TrimSpace(job.JobID) == ""`
unfoldable pub job_id_of : Option String → Option String
job_id_of none = none
job_id_of (some id) = if is_blank id then none else some id
