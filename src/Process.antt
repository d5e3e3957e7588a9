-- ===== src/Process.antt =====
-- cmd/t-cloud-csi-driver/main.go: the start of the process, over any system that it runs on.
pub mod Extends
pub mod Start
pub mod Sockets
pub mod Serve
pub mod Rpc
use t_cloud_public_csi_drive.Common.{
  ℕ, Bool, true, false, ◌||◌, Option, none, some, String, List, [], ◌∷◌, if◌then◌else◌,
}
use t_cloud_public_csi_drive.Path.{dir}
use t_cloud_public_csi_drive.Eff.{Result, ok, err, Eff, pure, raise, lift, attempt, ◌>>=◌, ◌>>◌}
use t_cloud_public_csi_drive.Errors.{
  Err, errors_is, not_exist, help_requested, version_requested, plain,
}
use t_cloud_public_csi_drive.Config.{
  Role, controller, node, Flags, Url, Settings, Address, unix, tcp, NodeFacts, resolve_endpoint,
  load,
}
use t_cloud_public_csi_drive.Config.Metadata.{caller, Service, Moments, fetch}
use t_cloud_public_csi_drive.Driver.Identity.{new_identity_service}
use t_cloud_public_csi_drive.Driver.Services.{new_node_service}
use t_cloud_public_csi_drive.Evs.Transport.{EvsConfig}

pub data Server : Type 0 where
  identity_server controller_server node_server : Server

-- What the process does that others see, or that a later step stands on.
pub data Action : Type 0 where
  asked_facts : Moments → Action
  connected : EvsConfig → Action
  registered : Server → Action
  made_directory inspected removed : String → Action
  listened : Address → Action
  served : Action

-- The last action first.
abbrev pub Trace : Type 0
Trace = List Action

-- The system: what the process is started with, and how it answers. `stat` tells whether a path is a
-- socket, `serve` how the server ends.
pub record System : Type 0 where
  pub parse_url : String → Option Url
  pub getenv : String → String
  pub version : String
  pub flags : Result Err Flags
  pub metadata : Service
  pub new_client : EvsConfig → Trace → Option Err
  pub mkdir_err : String → Trace → Option Err
  pub stat : String → Trace → Result Err Bool
  pub remove_err : String → Trace → Option Err
  pub listen_err : Address → Trace → Option Err
  pub serve : Trace → Option Err

abbrev pub Proc : Type 0 → Type 0
Proc A = Eff Trace Err A

abbrev pub failure : Option Err → Result Err (Unit {0})
failure none = ok tt
failure (some e) = err e

-- An action, with the answer of the system to it.
unfoldable pub act : {A : Type 0} → Action → (Trace → Result Err A) → Proc A
act a answer t = (answer t, a ∷ t)

unfoldable pub note : Action → Proc (Unit {0})
note a t = (ok tt, a ∷ t)

-- The settings that `registerController` hands to `evs.NewClient`.
abbrev pub evs_config : Settings → EvsConfig
evs_config c = record {
  auth_url = c.auth_url;
  access_key = c.access_key;
  secret_key = c.secret_key;
  project_id = c.project_id;
  region_name = c.region_name;
  security_token = c.security_token;
}

module _ (system : System) where
  unfoldable pub fetch_facts : Proc NodeFacts
  unfolding fetch
  fetch_facts t =
      let (facts, moments) = fetch system.metadata caller [] in (facts, asked_facts moments ∷ t)

  unfoldable pub register_controller : Settings → Proc (Unit {0})
  unfolding act note
  register_controller c = do
    act (connected (evs_config c)) (λ t. failure (system.new_client (evs_config c) t))
    note (registered controller_server)

  unfoldable pub register_node : Settings → Proc (Unit {0})
  unfolding new_node_service note
  register_node c = do _ ← lift (new_node_service c); note (registered node_server)

  abbrev pub register_role : Role → Settings → Proc (Unit {0})
  register_role controller c = register_controller c
  register_role node c = register_node c

  unfoldable pub register_services : Settings → Proc (Unit {0})
  unfolding new_identity_service register_controller register_node note
  register_services c = do
    _ ← lift (new_identity_service c)
    note (registered identity_server)
    register_role c.role c

  abbrev pub after_stat : String → Result Err Bool → Proc (Unit {0})
  after_stat path (ok true) = act (removed path) (λ t. failure (system.remove_err path t))
  after_stat path (ok false) = raise plain
  after_stat path (err e) = if errors_is e not_exist then pure tt else raise e

  unfoldable pub clear_stale_socket : String → Proc (Unit {0})
  unfolding act
  clear_stale_socket path = do
    found ← attempt (act (inspected path) (λ t. system.stat path t))
    after_stat path found

  abbrev pub listen_on : Address → Proc (Unit {0})
  listen_on address = act (listened address) (λ t. failure (system.listen_err address t))

  abbrev pub open_address : Address → Proc (Unit {0})
  open_address (tcp host) = listen_on (tcp host)
  open_address (unix path) = do
    act (made_directory (dir path)) (λ t. failure (system.mkdir_err (dir path) t))
    clear_stale_socket path
    listen_on (unix path)

  unfoldable pub listen : Settings → Proc (Unit {0})
  unfolding clear_stale_socket act
  listen c = do address ← lift (resolve_endpoint system.parse_url c.endpoint); open_address address

  unfoldable pub run : Proc (Unit {0})
  unfolding fetch_facts register_services listen act load
  run = do
    c ← load fetch_facts system.parse_url system.version system.flags system.getenv
    register_services c
    listen c
    act served (λ t. failure (system.serve t))

-- The exit code of `main`.
unfoldable pub exit_code : Result Err (Unit {0}) → ℕ
exit_code (ok _) = 0
exit_code (err e) = if errors_is e help_requested || errors_is e version_requested then 0 else 1
