-- ===== src/Process/Start.antt =====
-- cmd/t-cloud-csi-driver/main.go: in which order the process starts, and what each role does.
use t_cloud_public_csi_drive.Common.{
  ◌≡◌, refl, Bool-cases, inl, inr, Bool, true, false, not, ◌&&◌, Option, none, some, String, [],
  ◌∷◌, ◌++◌, All, Memᴰ, str_eq,
}
use t_cloud_public_csi_drive.Eff.{Result, ok, err, continue, ◌>>=◌, ◌>>◌, lift}
use t_cloud_public_csi_drive.Eff.Rules.{
  Moves, Moves-pure, Moves-raise, Moves-lift, Moves-attempt, Moves-if,
}
use t_cloud_public_csi_drive.Process.Extends.{Extends, Extends-same, Extends-act, Extends-bind}
use t_cloud_public_csi_drive.Errors.{Err}
use t_cloud_public_csi_drive.Config.{
  facts_for, Role, controller, node, Flags, Settings, Address, unix, tcp, NodeFacts, load, parse,
  resolve_node_facts, with_facts, validate_node_facts,
}
use t_cloud_public_csi_drive.Driver.Identity.{IdentityService, new_identity_service}
use t_cloud_public_csi_drive.Driver.Services.{new_node_service}
use t_cloud_public_csi_drive.Process.{
  Server, identity_server, controller_server, node_server, Action, asked_facts, connected,
  registered, made_directory, inspected, removed, listened, served, Trace, System, Proc, failure,
  act, note, fetch_facts, register_controller, register_node, register_services, register_role,
  evs_config, after_stat, clear_stale_socket, open_address, listen, run,
}

-- What a process of the role does before it touches its endpoint.
abbrev pub Preparing : Role → Action → Type 0
Preparing role (asked_facts m) = role ≡ node
Preparing role (connected cfg) = role ≡ controller
Preparing role (registered identity_server) = Unit
Preparing role (registered controller_server) = role ≡ controller
Preparing role (registered node_server) = role ≡ node
Preparing role (made_directory path) = ⊥
Preparing role (inspected path) = ⊥
Preparing role (removed path) = ⊥
Preparing role (listened address) = ⊥
Preparing role served = ⊥

-- What it does at its endpoint.
abbrev pub Touching : Action → Type 0
Touching (asked_facts m) = ⊥
Touching (connected cfg) = ⊥
Touching (registered server) = ⊥
Touching (made_directory path) = Unit
Touching (inspected path) = Unit
Touching (removed path) = Unit
Touching (listened address) = Unit
Touching served = Unit

abbrev pub server_of : Role → Server
server_of controller = controller_server
server_of node = node_server

-- How a start goes: it fails while it prepares, or everything is prepared before the endpoint is touched.
pub data Started : Result Err (Unit {0}) → Trace → Type 0 where
  fails : {e : Err} {t : Trace} (role : Role) → All (Preparing role) t → Started (err e) t
  opens :
      {out : Result Err (Unit {0})} {final : Trace} (role : Role) (touches t : Trace)
      → final ≡ touches ++ t
      → All Touching touches
      → All (Preparing role) t
      → Memᴰ (registered identity_server) t
      → Memᴰ (registered (server_of role)) t
      → Started out final

module _ (system : System) where
  after_stat-Touching :
      (path : String) (r : Result Err Bool) → Moves (Extends Touching) (after_stat system path r)
  after_stat-Touching path (ok true) = Extends-act _ _ tt
  after_stat-Touching path (ok false) = Moves-raise Extends-same _
  after_stat-Touching path (err e) =
      Moves-if _ _ _ (Moves-pure Extends-same tt) (Moves-raise Extends-same e)

  open_address-Touching :
      (address : Address) → Moves (Extends Touching) (open_address system address)
  unfolding clear_stale_socket
  open_address-Touching (tcp host) = Extends-act _ _ tt
  open_address-Touching (unix path) = Extends-bind (Extends-act _ _ tt) (λ _.
      Extends-bind
        (Extends-bind (Moves-attempt (Extends-act _ _ tt)) (λ r. after_stat-Touching path r))
        (λ _. Extends-act _ _ tt))

  listen-Touching : (c : Settings) → Moves (Extends Touching) (listen system c)
  unfolding listen
  listen-Touching c = Extends-bind (Moves-lift Extends-same _) open_address-Touching

  serve-Touching :
      (c : Settings)
      → Moves (Extends Touching) (listen system c >> act served (λ t. failure (system.serve t)))
  serve-Touching c = Extends-bind (listen-Touching c) (λ _. Extends-act _ _ tt)

  -- What has been done once the settings are there, and where they are not.
  unfoldable pub Loaded : Result Err Settings → Trace → Type 0
  Loaded (ok c) t = All (Preparing c.role) t
  Loaded (err e) t = All (Preparing node) t

  validate-Loaded :
      (c : Settings) (t : Trace)
      → c.role ≡ node
      → All (Preparing node) t
      → Loaded (validate_node_facts c) t
  unfolding Loaded validate_node_facts
  validate-Loaded c t e all = elim (Bool-cases (str_eq c.node_id "")) [
    | inl a ↦ rw a all
    | inr a ↦ rw a (elim (Bool-cases (str_eq c.availability_zone "")) [
      | inl b ↦ rw b all
      | inr b ↦ rw b (rw e all)
    ])
  ]

  with_facts-Loaded :
      (c : Settings) (r : Result Err NodeFacts) (t : Trace)
      → c.role ≡ node
      → All (Preparing node) t
      → (let p = continue r (λ facts. lift (validate_node_facts (with_facts c facts))) t in
          Loaded p.0 p.1)
  unfolding Loaded lift
  with_facts-Loaded c (ok facts) t e all = validate-Loaded (with_facts c facts) t e all
  with_facts-Loaded c (err x) t e all = all

  facts-Loaded :
      (c : Settings) → (let p = resolve_node_facts (fetch_facts system) c [] in Loaded p.0 p.1)
  unfolding resolve_node_facts Loaded ◌>>=◌ fetch_facts
  facts-Loaded c = go c.role refl
    where
      go :
          (role : Role)
          → c.role ≡ role
          → (let p = facts_for (fetch_facts system) role c [] in Loaded p.0 p.1)
      go controller e = tt
      go node e =
          elim (Bool-cases (not (str_eq c.node_id "") && not (str_eq c.availability_zone ""))) [
            | inl b ↦ rw b (validate-Loaded c [] e tt)
            | inr b ↦ rw b (with_facts-Loaded c _ _ e (refl, tt))
          ]

  pub load-Loaded :
      (let p =
          load (fetch_facts system) system.parse_url system.version system.flags system.getenv [] in
        Loaded p.0 p.1)
  unfolding load Loaded lift ◌>>=◌
  load-Loaded = go system.flags
    where
      parsed :
          (r : Result Err Settings)
          → (let p = continue r (resolve_node_facts (fetch_facts system)) [] in Loaded p.0 p.1)
      parsed (ok c) = facts-Loaded c
      parsed (err e) = tt

      go :
          (r : Result Err Flags)
          → (let p =
                continue r
                  (λ flags.
                    lift (parse system.parse_url system.version flags system.getenv)
                    >>= resolve_node_facts (fetch_facts system))
                  [] in
              Loaded p.0 p.1)
      go (ok flags) = parsed (parse system.parse_url system.version flags system.getenv)
      go (err e) = tt

  -- What is there once the services are registered, and where that failed.
  unfoldable pub Prepared : Role → Result Err (Unit {0}) → Trace → Type 0
  Prepared role (ok _) t =
      All (Preparing role) t
      × Memᴰ (registered identity_server) t
      × Memᴰ (registered (server_of role)) t
  Prepared role (err e) t = All (Preparing role) t

  controller-Prepared :
      (c : Settings) (t : Trace)
      → All (Preparing controller) t
      → (let p = register_controller system c (registered identity_server ∷ t) in
          Prepared controller p.0 p.1)
  unfolding register_controller Prepared act note ◌>>=◌
  controller-Prepared c t all =
      go (system.new_client (evs_config c) (registered identity_server ∷ t))
    where
      go :
          (o : Option Err)
          → (let p =
                continue
                  (failure o)
                  (λ _. note (registered controller_server))
                  (connected (evs_config c) ∷ registered identity_server ∷ t) in
              Prepared controller p.0 p.1)
      go none = ((refl, (refl, (tt, all))), Memᴰ.tail (Memᴰ.tail (Memᴰ.head refl)), Memᴰ.head refl)
      go (some e) = (refl, (tt, all))

  node-Prepared :
      (c : Settings) (t : Trace)
      → All (Preparing node) t
      → (let p = register_node system c (registered identity_server ∷ t) in Prepared node p.0 p.1)
  unfolding register_node Prepared note lift ◌>>=◌
  node-Prepared c t all = go (new_node_service c)
    where
      go :
          (r : Result Err Settings)
          → (let p =
                continue r (λ _. note (registered node_server)) (registered identity_server ∷ t) in
              Prepared node p.0 p.1)
      go (ok _) = ((refl, (tt, all)), Memᴰ.tail (Memᴰ.head refl), Memᴰ.head refl)
      go (err e) = (tt, all)

  pub services-Prepared :
      (c : Settings) (t : Trace)
      → All (Preparing c.role) t
      → (let p = register_services system c t in Prepared c.role p.0 p.1)
  unfolding register_services Prepared note lift ◌>>=◌
  services-Prepared c t all = go (new_identity_service c)
    where
      by_role :
          (role : Role)
          → All (Preparing role) t
          → (let p = register_role system role c (registered identity_server ∷ t) in
              Prepared role p.0 p.1)
      by_role controller all = controller-Prepared c t all
      by_role node all = node-Prepared c t all

      go :
          (r : Result Err IdentityService)
          → (let p =
                continue r
                  (λ _. note (registered identity_server) >> register_role system c.role c)
                  t in
              Prepared c.role p.0 p.1)
      go (ok _) = by_role c.role all
      go (err e) = all

  -- However a process starts, and whatever its system answers, what it does is of one role: only a
  -- node asks the metadata service, and only a controller makes a client of the cloud. It makes a
  -- directory, looks at, removes or opens its endpoint or serves there only after the Identity server
  -- and the server of its role are registered. So a start that fails before that leaves nothing there.
  pub run-Started : Started (run system []).0 (run system []).1
  unfolding run ◌>>=◌ Loaded Prepared
  run-Started = go _ _ load-Loaded
    where
      rest : Settings → Proc (Unit {0})
      rest c = listen system c >> act served (λ t. failure (system.serve t))

      opened :
          (c : Settings) (r : Result Err (Unit {0})) (t : Trace)
          → Prepared c.role r t
          → (let p = continue r (λ _. rest c) t in Started p.0 p.1)
      opened c (ok _) t (all, identity, own) =
          let e = (serve-Touching c).at t in
          Started.opens c.role e.new t e.shape e.all all identity own
      opened c (err e) t all = Started.fails c.role all

      go :
          (r : Result Err Settings) (t : Trace)
          → Loaded r t
          → (let p = continue r (λ c. register_services system c >>= λ _. rest c) t in
              Started p.0 p.1)
      go (ok c) t all = opened c _ _ (services-Prepared c t all)
      go (err e) t all = Started.fails node all
