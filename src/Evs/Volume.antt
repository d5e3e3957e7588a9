-- ===== src/Evs/Volume.antt =====
-- internal/evs/volume.go: the records that the SDK's become, `GetVolume`, `CreateVolume` and the wait
-- for its job.
pub mod Waits
use Prim.Native.String.{◌++◌ as str_append}
use t_cloud_public_csi_drive.Common.{
  ℕ, String, Bool, true, false, not, ◌||◌, Option, none, some, [], ◌∷◌, ◌++◌, if◌then◌else◌, str_eq,
  Dict,
}
use t_cloud_public_csi_drive.Common.Int.{pos, leb_ℤ}
use t_cloud_public_csi_drive.Text.{trim_space, is_blank, cut_prefix}
use t_cloud_public_csi_drive.Eff.{Result, ok, err, pure, lift, attempt, ◌>>=◌, ◌>>◌}
use t_cloud_public_csi_drive.Errors.{
  Sentinel, invalid_argument, unavailable, operation_failed, canceled, deadline_exceeded, Err,
  errors_is, only, plain,
}
use t_cloud_public_csi_drive.Evs.Types.{
  Volume, CreateVolumeOpts, CreateRequest, V3Volume, V2Metadata, V2Volume, JobStatus,
}
use t_cloud_public_csi_drive.Evs.Classify.{classify_error_kind}
use t_cloud_public_csi_drive.Evs.Cloud.{
  Cloud, Context, M, create_request, get_request, job_request, request, with_timeout, ctx_err,
  fail_when, fail_if, fail_classified, classified, Verdict, settled, again, poll,
}

abbrev pub ownership_tag_key : String
ownership_tag_key = "managed-by"

abbrev pub ownership_tag_value : String
ownership_tag_value = "evs-csi-t-cloud-wilaris-dev"

-- `maxOperationTimeout`, in seconds, and fuel for a loop with a period of one second under it.
abbrev pub max_operation_timeout : ℕ
max_operation_timeout = 600

abbrev pub poll_fuel : ℕ
poll_fuel = 602

-- The SDK's `Extract` gives no nil volume without an error, so the nil guard is left out.
unfoldable pub map_v3_volume_to_domain : V3Volume → Volume
map_v3_volume_to_domain v = record {
  id = v.id;
  name = v.name;
  status = v.status;
  size = v.size;
  availability_zone = v.availability_zone;
  volume_type = v.volume_type;
  metadata = v.metadata;
  tags = v.tags;
  multiattach = v.multiattach;
}

-- `if v != "" { metadata[key] = v }`; each key is written once.
abbrev entry : String → String → Dict
entry key v = if str_eq v "" then [] else (key, v) ∷ []

pub v2_metadata : V2Metadata → Dict
v2_metadata m =
    entry "__system__cmkid" m.system_cmk_id
    ++ (entry "__system__encrypted" m.system_encrypted
        ++ (entry "full_clone" m.full_clone
            ++ (entry "hw:passthrough" m.hw_passthrough
                ++ (entry "orderID" m.order_id
                    ++ (entry "resourceType" m.resource_type
                        ++ (entry "resourceSpecCode" m.resource_spec_code
                            ++ (entry "readonly" m.read_only
                                ++ entry "attached_mode" m.attached_mode)))))))

unfoldable pub map_v2_volume_to_domain : V2Volume → Volume
map_v2_volume_to_domain v = record {
  id = v.id;
  name = v.name;
  status = v.status;
  size = v.size;
  availability_zone = v.availability_zone;
  volume_type = v.volume_type;
  metadata = v2_metadata v.metadata;
  tags = v.tags;
  multiattach = v.multiattach;
}

-- `!errors.Is(kind, ErrUnavailable) && !errors.Is(kind, ErrOperationFailed)` is the negation.
abbrev pub is_transient : Sentinel → Bool
is_transient unavailable = true
is_transient operation_failed = true
is_transient _ = false

unfoldable pub job_poll_should_stop : Err → Bool
job_poll_should_stop e =
    if errors_is e canceled || errors_is e deadline_exceeded
    then true
    else not (is_transient (classify_error_kind e))

-- The path of `jobStatusEndpoint`.
unfoldable pub job_status_endpoint : Option String → Result Err String
job_status_endpoint none = err (only operation_failed)
job_status_endpoint (some path) = elim (cut_prefix path "/v3/") [
  | none ↦ err (only operation_failed)
  | some rest ↦ ok (str_append "/v1/" rest)
]

-- What one answer of the jobs service means for the loop.
unfoldable pub job_verdict : Result Err JobStatus → Result Err (Verdict String)
unfolding job_poll_should_stop
job_verdict (ok job) =
    let vol_id = trim_space job.volume_id in
    if str_eq job.status "SUCCESS"
    then if str_eq vol_id "" then err (only operation_failed) else ok (settled vol_id)
    else if str_eq job.status "FAIL"
    then err plain
    else ok again
job_verdict (err e) = if job_poll_should_stop e then err e else ok again

abbrev pub create_request_of : CreateVolumeOpts → CreateRequest
create_request_of opts = record {
  availability_zone = opts.availability_zone;
  volume_type = opts.volume_type;
  name = opts.name;
  description = opts.description;
  size = opts.size;
  multiattach = opts.multiattach;
  tags = (ownership_tag_key, ownership_tag_value) ∷ [];
}

module _ (cloud : Cloud) where
  unfoldable pub observe_job : Context → String → String → M (Verdict String)
  unfolding job_verdict
  observe_job ctx path job_id = do
    stopped ← ctx_err cloud ctx
    fail_if stopped
    answer ← attempt (request (job_request path job_id) (cloud.job path job_id))
    lift (job_verdict answer)

  unfoldable pub wait_for_job_success : Context → String → M String
  unfolding job_status_endpoint
  wait_for_job_success ctx job_id = do
    path ← lift (job_status_endpoint cloud.endpoint_path)
    poll cloud ctx poll_fuel (observe_job ctx path job_id)

  unfoldable pub get_volume : Context → String → M Volume
  get_volume outer id = do
    ctx ← with_timeout outer max_operation_timeout
    stopped ← ctx_err cloud ctx
    fail_classified stopped
    fail_when (is_blank id) (only invalid_argument)
    answer ← attempt (request (get_request id) (cloud.get id))
    v3_vol ← classified answer
    pure (map_v3_volume_to_domain v3_vol)

  unfoldable pub create_volume : Context → CreateVolumeOpts → M Volume
  create_volume outer opts = do
    ctx ← with_timeout outer max_operation_timeout
    stopped ← ctx_err cloud ctx
    fail_classified stopped
    fail_when (is_blank opts.availability_zone) (only invalid_argument)
    fail_when (is_blank opts.volume_type) (only invalid_argument)
    fail_when (leb_ℤ opts.size (pos 0)) (only invalid_argument)
    let create_opts = create_request_of opts
    answer ← attempt (request (create_request create_opts) (cloud.create create_opts))
    job_id ← classified answer
    fail_when (str_eq job_id "") (only operation_failed)
    waited ← attempt (wait_for_job_success ctx job_id)
    vol_id ← classified waited
    get_volume ctx vol_id
