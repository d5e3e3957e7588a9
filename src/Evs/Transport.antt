-- ===== src/Evs/Transport.antt =====
-- internal/evs/transport.go, and of client.go `NewProviderClient`: how a request goes out. The round
-- trippers of other packages, the SDK and its signatures are parameters.
pub mod Scoped
pub mod Redirects
use t_cloud_public_csi_drive.Common.{
  ℕ, Bool, true, false, not, ◌||◌, ◌&&◌, Option, none, some, String, List, [], ◌∷◌, ◌==◌, ltb,
  if◌then◌else◌, str_eq, length,
}
use t_cloud_public_csi_drive.Eff.{Result, ok, err}
use t_cloud_public_csi_drive.Errors.{Err, errors_is, gateway_failure, redirect_refused, only, plain}

abbrev pub max_redirects : ℕ
max_redirects = 3

-- In seconds.
abbrev pub request_timeout : ℕ
request_timeout = 60

-- `http.Request`, as far as it is read.
pub record Request : Type 0 where
  pub scheme : String
  pub host : String
  pub headers : List String

pub record Response : Type 0 where
  pub status_code : ℕ
  pub body : ℕ

-- `http.RoundTripper`: none, one of another package, `contextTransport` or `gatewayTransport`.
pub data Transport (C : Type 0) : Type 0 where
  missing : Transport C
  outside : ℕ → Transport C
  contextual : Option C → Transport C → Transport C
  gateway : Transport C → Transport C

-- What other packages' round trippers do with a request under a context; without a number, the
-- default one does it.
pub record Network (C : Type 0) : Type 0 where
  pub background : C
  pub send : Option ℕ → C → Request → Result Err Response

-- `gatewayTransport.RoundTrip`, after the next round tripper.
unfoldable pub gate : Result Err Response → Result Err Response
gate (err e) = err e
gate (ok resp) =
    if resp.status_code == 502 || resp.status_code == 504
    then err (only gateway_failure)
    else ok resp

abbrev pub or_background : {C : Type 0} → C → Option C → C
or_background background none = background
or_background background (some ctx) = ctx

module _ {C : Type 0} (net : Network C) where
  -- `RoundTrip` of a round tripper, for a request with a context.
  unfoldable pub round_trip : Transport C → C → Request → Result Err Response
  unfolding gate
  round_trip missing ctx req = net.send none ctx req
  round_trip (outside n) ctx req = net.send (some n) ctx req
  round_trip (contextual own next) ctx req = round_trip next (or_background net.background own) req
  round_trip (gateway next) ctx req = gate (round_trip next ctx req)

-- `golangsdk.ProviderClient`, as far as it is set: its HTTP client and its retries.
pub record Provider (C : Type 0) : Type 0 where
  pub transport : Transport C
  pub timeout : Option ℕ
  pub checks_redirects : Bool
  pub max_backoff_retries : Option ℕ
  pub backoff_retry_timeout : Option ℕ

-- `golangsdk.ServiceClient`
pub record ServiceClient (C : Type 0) : Type 0 where
  pub provider : Option (Provider C)
  pub endpoint : String

abbrev pub as_gateway : {C : Type 0} → Transport C → Transport C
as_gateway (gateway next) = gateway next
as_gateway missing = gateway missing
as_gateway (outside n) = gateway (outside n)
as_gateway (contextual ctx next) = gateway (contextual ctx next)

abbrev pub scope_provider : {C : Type 0} → Option C → Option (Provider C) → Option (Provider C)
scope_provider ctx none = none
scope_provider ctx (some p) =
    some (record p { transport = contextual ctx (as_gateway p.transport) })

-- `withRequestContext`. The clients are copied, so the shared ones stay as they are.
unfoldable pub with_request_context :
    {C : Type 0} → Option C → Option (ServiceClient C) → Option (ServiceClient C)
with_request_context ctx none = none
with_request_context ctx (some client) =
    some (record client { provider = scope_provider ctx client.provider })

-- `Config`
pub record EvsConfig : Type 0 where
  pub auth_url : String
  pub access_key : String
  pub secret_key : String
  pub project_id : String
  pub region_name : String
  pub security_token : String

-- What the SDK does to make a provider client, and to authenticate it.
pub record Sdk (C : Type 0) : Type 0 where
  pub new_client : String → Result Err (Provider C)
  pub authenticate : Provider C → EvsConfig → Option Err

-- The error that `sanitizeError` makes; only its text and a refused redirect are left of a failure.
abbrev pub sanitized : Err → Err
sanitized e = if errors_is e redirect_refused then only redirect_refused else plain

unfoldable pub is_incomplete : EvsConfig → Bool
is_incomplete cfg =
    str_eq cfg.auth_url ""
    || str_eq cfg.access_key ""
    || str_eq cfg.secret_key ""
    || str_eq cfg.project_id ""
    || str_eq cfg.region_name ""

module _ {C : Type 0} (sdk : Sdk C) where
  -- The provider client at startup, under the context of the start.
  abbrev pub startup_provider : C → Provider C → Provider C
  startup_provider ctx client = record {
    transport = contextual (some ctx) (gateway client.transport);
    timeout = some request_timeout;
    checks_redirects = true;
    max_backoff_retries = some 0;
    backoff_retry_timeout = some 0;
  }

  abbrev pub after_authenticate : Option Err → C → Provider C → Result Err (Provider C)
  after_authenticate (some e) ctx client = err (sanitized e)
  after_authenticate none ctx client =
      ok (record (startup_provider ctx client) { transport = gateway client.transport })

  abbrev pub after_new_client : C → EvsConfig → Result Err (Provider C) → Result Err (Provider C)
  after_new_client ctx cfg (err e) = err (sanitized e)
  after_new_client ctx cfg (ok client) =
      after_authenticate (sdk.authenticate (startup_provider ctx client) cfg) ctx client

  -- `NewProviderClient`
  unfoldable pub new_provider_client : C → EvsConfig → Result Err (Provider C)
  unfolding is_incomplete
  new_provider_client ctx cfg =
      if is_incomplete cfg
      then err plain
      else after_new_client ctx cfg (sdk.new_client cfg.auth_url)

abbrev pub last_of : List Request → Option Request
last_of [] = none
last_of (r ∷ []) = some r
last_of (r ∷ s ∷ rest) = last_of (s ∷ rest)

-- Behind the last request, with the signature of the SDK; without one the index is out of range.
abbrev pub redirect_from :
    (Request → Request) → Option Request → Request → Option (Result Err Request)
redirect_from resign none req = none
redirect_from resign (some previous) req = some (
    if not (str_eq req.scheme previous.scheme) || not (str_eq req.host previous.host)
    then err (only redirect_refused)
    else ok (resign req))

-- `checkRedirect`, for the requests that were made, the oldest first.
unfoldable pub check_redirect :
    (Request → Request) → Request → List Request → Option (Result Err Request)
check_redirect resign req via =
    if ltb max_redirects (length via)
    then some (err (only redirect_refused))
    else redirect_from resign (last_of via) req
