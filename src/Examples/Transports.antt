-- ===== src/Examples/Transports.antt =====
-- Tests of internal/evs/transport.go.
use t_cloud_public_csi_drive.Common.{
  suc, ℕ, ◌≡◌, refl, true, none, some, List, [], ◌∷◌, All, length, ◌≤◌,
}
use t_cloud_public_csi_drive.Eff.{Result, ok}
use t_cloud_public_csi_drive.Evs.Transport.{
  Request, Response, outside, gateway, Network, round_trip, Provider, with_request_context,
  EvsConfig, Sdk, new_provider_client, is_incomplete, check_redirect, max_redirects,
}
use t_cloud_public_csi_drive.Evs.Transport.Scoped.{
  gateways, client_gateways, Answered, client_round_trip, with_request_context-Answered,
}
use t_cloud_public_csi_drive.Evs.Transport.Redirects.{
  Follows, start, hop, SameOrigin, KeepsUrl, Follows-SameOrigin,
}

-- A cloud behind a gateway that has timed out.
abbrev sample_network : Network ℕ
sample_network = record {
  background = 0;
  send = λ n ctx req. ok (record { status_code = 504; body = 1 });
}

abbrev sdk_provider : Provider ℕ
sdk_provider = record {
  transport = outside 1;
  timeout = none;
  checks_redirects = true;
  max_backoff_retries = none;
  backoff_retry_timeout = none;
}

abbrev sample_sdk : Sdk ℕ
sample_sdk = record { new_client = λ url. ok sdk_provider; authenticate = λ p cfg. none }

abbrev sample_config : EvsConfig
sample_config = record {
  auth_url = "https://iam.example.org/v3";
  access_key = "access";
  secret_key = "secret";
  project_id = "project";
  region_name = "eu-de";
  security_token = "";
}

abbrev started_provider : Provider ℕ
started_provider = record {
  transport = gateway (outside 1);
  timeout = some 60;
  checks_redirects = true;
  max_backoff_retries = some 0;
  backoff_retry_timeout = some 0;
}

new_provider_client_test : new_provider_client sample_sdk 1 sample_config ≡ ok started_provider
unfolding new_provider_client is_incomplete
new_provider_client_test = refl

abbrev sample_request : Request
sample_request = record { scheme = "https"; host = "evs.example.org"; headers = [] }

with_request_context-Answered_example :
    (q : Provider ℕ) × (out : Result _ Response) × (sample_sdk.new_client
        "https://iam.example.org/v3"
      ≡ ok q)
    × (client_round_trip sample_network
          (with_request_context
            (some 2)
            (some (record { provider = some started_provider; endpoint = "v3" })))
          3
          sample_request
        ≡ some out)
    × Answered (round_trip sample_network q.transport 2 sample_request) out
    × (client_gateways (
          with_request_context
            (some 2)
            (some (record { provider = some started_provider; endpoint = "v3" })))
        ≡ some (suc (gateways q.transport)))
with_request_context-Answered_example =
    with_request_context-Answered sample_network sample_sdk 1 sample_config started_provider "v3" 2
      3 sample_request new_provider_client_test

abbrev sample_resign : Request → Request
sample_resign r = record r { headers = "Authorization" ∷ r.headers }

sample-KeepsUrl : KeepsUrl sample_resign
sample-KeepsUrl = record { at = λ r. (refl, refl) }

redirect_test :
    check_redirect sample_resign sample_request (sample_request ∷ [])
    ≡ some (ok (sample_resign sample_request))
unfolding check_redirect
redirect_test = refl

sample-Follows : Follows sample_resign (sample_request ∷ sample_resign sample_request ∷ [])
sample-Follows = hop sample_request (start sample_request) redirect_test refl

Follows-SameOrigin_example :
    (first : Request) × (redirects : List Request) × (◌≡◌ {A = List Request}
      (sample_request ∷ sample_resign sample_request ∷ [])
      (first ∷ redirects))
    × (length redirects ≤ max_redirects)
    × All (λ r. SameOrigin sample_resign r first) redirects
Follows-SameOrigin_example = Follows-SameOrigin sample_resign sample-KeepsUrl sample-Follows
