-- ===== src/Evs/Transport/Scoped.antt =====
-- internal/evs/transport.go: under which context a request goes out, and which responses come back.
use t_cloud_public_csi_drive.Common.{
  ℕ, suc, ◌≡◌, ◌≢◌, ◌⊎◌, refl, sym, String, Bool, true, false, inl, inr, Option, none, some, ◌==◌,
  ◌||◌, arith, if◌then◌else◌,
}
use t_cloud_public_csi_drive.Eff.{Result, ok, err}
use t_cloud_public_csi_drive.Errors.{Err, errors_is, gateway_failure, unavailable, only, plain}
use t_cloud_public_csi_drive.Evs.Classify.{classify_error, classify_foreign}
use t_cloud_public_csi_drive.Evs.Transport.{
  Request, Response, Transport, missing, outside, contextual, gateway, Network, gate, round_trip,
  Provider, ServiceClient, with_request_context, EvsConfig, Sdk, new_provider_client, as_gateway,
  is_incomplete, after_new_client, after_authenticate,
}

gate_idem : (r : Result Err Response) → gate (gate r) ≡ gate r
unfolding gate
gate_idem (err e) = refl
gate_idem (ok resp) = ground arith

module _ {C : Type 0} (net : Network C) where
  as_gateway-gate :
      (t : Transport C) (ctx : C) (req : Request)
      → round_trip net (as_gateway t) ctx req ≡ gate (round_trip net t ctx req)
  unfolding round_trip
  as_gateway-gate missing ctx req = refl
  as_gateway-gate (outside n) ctx req = refl
  as_gateway-gate (contextual own next) ctx req = refl
  as_gateway-gate (gateway next) ctx req = sym (gate_idem (round_trip net next ctx req))

  -- What a request of a service client brings, under the context of its sender.
  abbrev pub provider_round_trip : Option (Provider C) → C → Request → Option (Result Err Response)
  provider_round_trip none ctx req = none
  provider_round_trip (some p) ctx req = some (round_trip net p.transport ctx req)

  abbrev pub client_round_trip :
      Option (ServiceClient C) → C → Request → Option (Result Err Response)
  client_round_trip none ctx req = none
  client_round_trip (some client) ctx req = provider_round_trip client.provider ctx req

-- The gateway round trippers that an answer of a client passes.
abbrev pub gateways : {C : Type 0} → Transport C → ℕ
gateways missing = 0
gateways (outside n) = 0
gateways (contextual own next) = gateways next
gateways (gateway next) = suc (gateways next)

abbrev pub client_gateways : {C : Type 0} → Option (ServiceClient C) → Option ℕ
client_gateways none = none
client_gateways (some client) = elim client.provider [
  | none ↦ none
  | some p ↦ some (gateways p.transport)
]

-- What becomes of the answer of the round tripper behind: a 502 or 504 is an error that is classified
-- as unavailable, and all else comes back as it is.
pub data Answered : Result Err Response → Result Err Response → Type 0 where
  fails : {e : Err} → Answered (err e) (err e)
  transient :
      {resp : Response} {e : Err}
      → (resp.status_code ≡ 502) ⊎ (resp.status_code ≡ 504)
      → classify_error e ≡ only unavailable
      → Answered (ok resp) (err e)
  answers :
      {resp : Response}
      → resp.status_code ≢ 502
      → resp.status_code ≢ 504
      → Answered (ok resp) (ok resp)

gateway-unavailable : classify_error (only gateway_failure) ≡ only unavailable
unfolding classify_error errors_is classify_foreign
gateway-unavailable = refl

gate-Answered : (r : Result Err Response) → Answered r (gate r)
unfolding gate
gate-Answered (err e) = fails
gate-Answered (ok resp) = go (resp.status_code == 502) refl (resp.status_code == 504) refl
  where
    go :
        (a : Bool)
        → (resp.status_code == 502) ≡ a
        → (b : Bool) → (resp.status_code == 504) ≡ b
        → Answered (ok resp) (if a || b then err (only gateway_failure) else ok resp)
    go true p b q = transient {e = only gateway_failure} (inl (ground arith)) gateway-unavailable
    go false p true q =
        transient {e = only gateway_failure} (inr (ground arith)) gateway-unavailable
    go false p false q = answers (ground arith) (ground arith)

module _ {C : Type 0} (net : Network C) (sdk : Sdk C) where
  provider_transport :
      (start : C) (cfg : EvsConfig) (p : Provider C)
      → new_provider_client sdk start cfg ≡ ok p
      → (q : Provider C) × (sdk.new_client cfg.auth_url ≡ ok q)
        × (p.transport ≡ gateway q.transport)
  unfolding new_provider_client
  provider_transport start cfg p made = go (is_incomplete cfg) made
    where
      authenticated :
          (o : Option Err) (q : Provider C)
          → after_authenticate sdk o start q ≡ ok p
          → p.transport ≡ gateway q.transport
      authenticated none q e = ground arith
      authenticated (some x) q e = absurd (ground arith)

      created :
          (r : Result Err (Provider C))
          → sdk.new_client cfg.auth_url ≡ r
          → after_new_client sdk start cfg r ≡ ok p
          → (q : Provider C) × (sdk.new_client cfg.auth_url ≡ ok q)
            × (p.transport ≡ gateway q.transport)
      created (ok q) eq e = (q, eq, authenticated _ q e)
      created (err x) eq e = absurd (ground arith)

      go :
          (incomplete : Bool)
          → (if incomplete
              then err plain
              else after_new_client sdk start cfg (sdk.new_client cfg.auth_url))
            ≡ ok p
          → (q : Provider C) × (sdk.new_client cfg.auth_url ≡ ok q)
            × (p.transport ≡ gateway q.transport)
      go true e = absurd (ground arith)
      go false e = created _ refl e

  -- With the provider client that the start has made, and the service client that an operation takes
  -- from it for its context, each request goes out under the context of the operation, whatever
  -- context its sender gave it and whatever the start had, through the round tripper of the SDK's
  -- client. The answer comes back as it is, but a 502 or 504 is a failure, of the class unavailable, so
  -- that the SDK never sees a status that it would repeat the request for. It passes one round tripper
  -- for this more than with the SDK's client, though both the start and the operation see to that.
  pub with_request_context-Answered :
      (start : C) (cfg : EvsConfig) (p : Provider C) (endpoint : String) (ctx outer : C)
      (req : Request)
      → new_provider_client sdk start cfg ≡ ok p
      → (q : Provider C) × (out : Result Err Response) × (sdk.new_client cfg.auth_url ≡ ok q)
        × (client_round_trip net
              (with_request_context
                (some ctx)
                (some (record { provider = some p; endpoint = endpoint })))
              outer
              req
            ≡ some out)
        × Answered (round_trip net q.transport ctx req) out
        × (client_gateways (
              with_request_context
                (some ctx)
                (some (record { provider = some p; endpoint = endpoint })))
            ≡ some (suc (gateways q.transport)))
  unfolding with_request_context round_trip
  with_request_context-Answered start cfg p endpoint ctx outer req made =
      let (q, from_sdk, transport) = provider_transport start cfg p made in
      (
        q,
        gate (round_trip net q.transport ctx req),
        from_sdk,
        rw transport,
        gate-Answered (round_trip net q.transport ctx req),
        rw transport refl,
      )
