-- ===== src/Evs/Client.antt =====
-- internal/evs/volume.go and transport.go: the construction of `Client`, and the clients that it takes
-- for the context of an operation. The text of errors is left out.
use t_cloud_public_csi_drive.Common.{Option, some, String}
use t_cloud_public_csi_drive.Eff.{Result, ok, err}
use t_cloud_public_csi_drive.Errors.{Err}
use t_cloud_public_csi_drive.Evs.Transport.{
  Provider, ServiceClient, EvsConfig, Sdk, sanitized, new_provider_client, with_request_context,
}

-- `openstack.NewBlockStorageV3`, `NewBlockStorageV2` and `NewComputeV1`, for a region.
pub record Services (C : Type 0) : Type 0 where
  pub block_storage_v3 : Provider C → String → Result Err (ServiceClient C)
  pub block_storage_v2 : Provider C → String → Result Err (ServiceClient C)
  pub compute_v1 : Provider C → String → Result Err (ServiceClient C)

-- `Client`
pub record Client (C : Type 0) : Type 0 where
  pub cfg : EvsConfig
  pub v3_client : Option (ServiceClient C)
  pub v2_client : Option (ServiceClient C)
  pub ecs_client : Option (ServiceClient C)

-- `if err != nil { return nil, fmt.Errorf("…: %w", sanitizeError(err, cfg)) }`
abbrev pub or_sanitized : {A B : Type 0} → Result Err A → (A → Result Err B) → Result Err B
or_sanitized (ok a) f = f a
or_sanitized (err e) f = err (sanitized e)

abbrev pub with_provider : {A B : Type 0} → Result Err A → (A → Result Err B) → Result Err B
with_provider (ok a) f = f a
with_provider (err e) f = err e

module _ {C : Type 0} (sdk : Sdk C) (services : Services C) where
  -- `NewClientFromProvider`
  unfoldable pub new_client_from_provider : EvsConfig → Provider C → Result Err (Client C)
  new_client_from_provider cfg provider =
      or_sanitized (services.block_storage_v3 provider cfg.region_name) (λ v3.
        or_sanitized (services.block_storage_v2 provider cfg.region_name) (λ v2.
          or_sanitized (services.compute_v1 provider cfg.region_name) (λ ecs. ok (record {
            cfg = cfg;
            v3_client = some v3;
            v2_client = some v2;
            ecs_client = some ecs;
          }))))

  -- `NewClient`
  unfoldable pub new_client : C → EvsConfig → Result Err (Client C)
  unfolding new_client_from_provider new_provider_client
  new_client ctx cfg =
      with_provider (new_provider_client sdk ctx cfg)
        (λ provider. new_client_from_provider cfg provider)

-- `v3`, `v2` and `ecs`
unfoldable pub v3 : {C : Type 0} → Client C → Option C → Option (ServiceClient C)
unfolding with_request_context
v3 c ctx = with_request_context ctx c.v3_client

unfoldable pub v2 : {C : Type 0} → Client C → Option C → Option (ServiceClient C)
unfolding with_request_context
v2 c ctx = with_request_context ctx c.v2_client

unfoldable pub ecs : {C : Type 0} → Client C → Option C → Option (ServiceClient C)
unfolding with_request_context
ecs c ctx = with_request_context ctx c.ecs_client
