-- ===== src/Examples/Processes.antt =====
-- Tests of internal/config.
use Prim.Native.String.{◌++◌ as str_append}
use t_cloud_public_csi_drive.Common.{
  ◌+◌, ◌≡◌, refl, false, Option, none, some, String, List, [], All, arith, if◌then◌else◌, str_eq,
  ltb,
}
use t_cloud_public_csi_drive.Text.{trim_space}
use t_cloud_public_csi_drive.Path.{join_path, is_abs, clean}
use t_cloud_public_csi_drive.Path.Names.{IsName}
use t_cloud_public_csi_drive.Eff.{ok, Eff, pure}
use t_cloud_public_csi_drive.Eff.Rules.{Any, Yields}
use t_cloud_public_csi_drive.Errors.{Err, deadline_exceeded, only}
use t_cloud_public_csi_drive.Config.{
  node, controller, Flags, Url, Settings, Address, unix, settings_of, resolve_endpoint, parse,
  NodeFacts, resolve_node_facts,
}
use t_cloud_public_csi_drive.Config.Valid.{
  HasCredentials, parse-HasCredentials, HasFacts, resolve_node_facts-HasFacts,
  resolve_endpoint-IsListenable,
}
use t_cloud_public_csi_drive.Config.Metadata.{
  Context, caller, timeout, Service, Moments, Fetches, fetch, elapsed, unreachable,
  metadata_retry_base, metadata_timeout,
}
use t_cloud_public_csi_drive.Config.Metadata.Retries.{Expires, fetch_ends}

abbrev pub sample_url : Url
sample_url = record {
  scheme = "unix";
  has_user = false;
  host = "";
  path = "/csi/csi.sock";
  raw_query = "";
  fragment = "";
}

-- Of the texts that are parsed here, one is a URL with a host.
abbrev pub parse_url : String → Option Url
parse_url s =
    if str_eq s "unix:///csi/csi.sock"
    then some sample_url
    else some (record sample_url { scheme = "https"; host = "iam.example.org" })

abbrev pub flags_of : String → Flags
flags_of role = record {
  role = role;
  endpoint = " unix:///csi/csi.sock";
  node_id = "";
  show_version = false;
  availability_zone = "eu-de-01";
}

abbrev pub getenv : String → String
getenv _ = "value"

abbrev node_settings : Settings
node_settings = settings_of "v1" (flags_of "node") getenv node

parse_test : parse parse_url "v1" (flags_of "node") getenv ≡ ok node_settings
unfolding parse trim_space is_abs clean
parse_test = refl

parse_controller_test :
    parse parse_url "v1" (flags_of "controller") getenv
    ≡ ok (settings_of "v1" (flags_of "controller") getenv controller)
unfolding parse trim_space is_abs clean
parse_controller_test = refl

parse-HasCredentials_example :
    ((a : Address) × (resolve_endpoint parse_url node_settings.endpoint ≡ ok a))
    × HasCredentials node_settings
parse-HasCredentials_example =
    parse-HasCredentials parse_url "v1" (flags_of "node") getenv node_settings parse_test

abbrev sample_fetch : Eff (Unit {0}) Err NodeFacts
sample_fetch = pure (record { server_uuid = "srv-1"; zone = "eu-de-02" })

resolve_node_facts-HasFacts_example :
    Yields (HasFacts node_settings) Any (resolve_node_facts sample_fetch node_settings)
resolve_node_facts-HasFacts_example = resolve_node_facts-HasFacts sample_fetch node_settings refl

endpoint_test : resolve_endpoint parse_url "unix:///csi/csi.sock" ≡ ok (unix "/csi/csi.sock")
unfolding resolve_endpoint is_abs clean
endpoint_test = refl

resolve_endpoint-IsListenable_example :
    (names : List String) × ("/csi/csi.sock" ≡ str_append "/" (join_path names)) × All IsName names
resolve_endpoint-IsListenable_example =
    resolve_endpoint-IsListenable parse_url "unix:///csi/csi.sock" (unix "/csi/csi.sock")
      endpoint_test

-- No answer ever comes, and each context ends with its timeout, the caller's never.
unfoldable timed_fetch : Context → Moments → Option Err
timed_fetch caller h = none
timed_fetch (timeout outer n start) h =
    if ltb (n + elapsed start) (elapsed h) then some (only deadline_exceeded) else none

abbrev silent_service : Service
silent_service = record { answer = λ _ _. unreachable; context_err = timed_fetch }

silent_service-Expires : Expires silent_service
unfolding timed_fetch
silent_service-Expires = record { ends = λ outer n start h lt e. ground arith }

fetch_ends_example :
    Fetches silent_service
      (timeout caller metadata_timeout [])
      metadata_retry_base
      []
      (fetch silent_service caller [])
fetch_ends_example = fetch_ends silent_service silent_service-Expires caller []
