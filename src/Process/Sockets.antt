-- ===== src/Process/Sockets.antt =====
-- cmd/t-cloud-csi-driver/main.go: what the process removes, and when it opens its socket.
use t_cloud_public_csi_drive.Common.{
  ◌≡◌, refl, Bool, true, false, Bool-cases, inl, inr, Option, none, some, String, [], ◌∷◌, All,
}
use t_cloud_public_csi_drive.Path.{dir}
use t_cloud_public_csi_drive.Eff.{
  Result, ok, err, continue, ◌>>=◌, ◌>>◌, lift, attempt, raise, pure,
}
use t_cloud_public_csi_drive.Errors.{Err, errors_is, not_exist}
use t_cloud_public_csi_drive.Config.{Role, node, Settings, Address, unix, tcp, resolve_endpoint}
use t_cloud_public_csi_drive.Process.{
  asked_facts, connected, registered, made_directory, inspected, removed, listened, served, Trace,
  System, failure, act, after_stat, clear_stale_socket, listen_on, open_address, listen,
  register_services, run,
}
use t_cloud_public_csi_drive.Process.Start.{
  Preparing, Loaded, load-Loaded, Prepared, services-Prepared,
}

module _ (system : System) where
  -- The last look was at the path, and found a socket.
  pub data FoundSocket (path : String) (h : Trace) : Type 0 where
    found :
        (earlier : Trace)
        → h ≡ inspected path ∷ earlier
        → system.stat path earlier ≡ ok true
        → FoundSocket path h

  -- The last look found nothing at the path, or what was there has just been removed.
  pub data IsFree (path : String) (h : Trace) : Type 0 where
    absent :
        (earlier : Trace) (e : Err)
        → h ≡ inspected path ∷ earlier
        → system.stat path earlier ≡ err e
        → errors_is e not_exist ≡ true
        → IsFree path h
    cleared :
        (earlier : Trace)
        → h ≡ removed path ∷ earlier
        → system.remove_err path earlier ≡ none
        → IsFree path h

  -- Only sockets are removed, and a socket is opened only where nothing is.
  abbrev pub Careful : Trace → Type 0
  Careful [] = Unit
  Careful (asked_facts m ∷ h) = Careful h
  Careful (connected cfg ∷ h) = Careful h
  Careful (registered server ∷ h) = Careful h
  Careful (made_directory path ∷ h) = Careful h
  Careful (inspected path ∷ h) = Careful h
  Careful (removed path ∷ h) = FoundSocket path h × Careful h
  Careful (listened (unix path) ∷ h) = IsFree path h × Careful h
  Careful (listened (tcp host) ∷ h) = Careful h
  Careful (served ∷ h) = Careful h

  Preparing-Careful : (role : Role) (t : Trace) → All (Preparing role) t → Careful t
  Preparing-Careful role [] all = tt
  Preparing-Careful role (asked_facts m ∷ t) all = Preparing-Careful role t all.1
  Preparing-Careful role (connected cfg ∷ t) all = Preparing-Careful role t all.1
  Preparing-Careful role (registered server ∷ t) all = Preparing-Careful role t all.1
  Preparing-Careful role (made_directory path ∷ t) all = absurd all.0
  Preparing-Careful role (inspected path ∷ t) all = absurd all.0
  Preparing-Careful role (removed path ∷ t) all = absurd all.0
  Preparing-Careful role (listened address ∷ t) all = absurd all.0
  Preparing-Careful role (served ∷ t) all = absurd all.0

  -- The part of `listen` behind the look at the path.
  socket-Careful :
      (path : String) (t : Trace) (r : Result Err Bool)
      → system.stat path t ≡ r
      → Careful t
      → Careful
          (let p = after_stat system path r (inspected path ∷ t) in
            continue p.0 (λ _. listen_on system (unix path)) p.1).1
  unfolding act pure raise
  socket-Careful path t (ok false) eq c = c
  socket-Careful path t (ok true) eq c = go (system.remove_err path (inspected path ∷ t)) refl
    where
      go :
          (o : Option Err)
          → system.remove_err path (inspected path ∷ t) ≡ o
          → Careful
              (continue
                (failure o)
                (λ _. listen_on system (unix path))
                (removed path ∷ inspected path ∷ t)).1
      go none e = (cleared _ refl e, (found t refl eq, c))
      go (some x) e = (found t refl eq, c)
  socket-Careful path t (err e) eq c = elim (Bool-cases (errors_is e not_exist)) [
    | inl gone ↦ rw gone (absent t e refl eq gone, c)
    | inr there ↦ rw there c
  ]

  open_address-Careful :
      (address : Address) (t : Trace) → Careful t → Careful (open_address system address t).1
  unfolding act clear_stale_socket ◌>>=◌ attempt
  open_address-Careful (tcp host) t c = c
  open_address-Careful (unix path) t c = go (system.mkdir_err (dir path) t)
    where
      go :
          (o : Option Err)
          → Careful
              (continue
                (failure o)
                (λ _. clear_stale_socket system path >> listen_on system (unix path))
                (made_directory (dir path) ∷ t)).1
      go none = socket-Careful path (made_directory (dir path) ∷ t) _ refl c
      go (some e) = c

  listen-Careful : (s : Settings) (t : Trace) → Careful t → Careful (listen system s t).1
  unfolding listen ◌>>=◌ lift
  listen-Careful s t c = go (resolve_endpoint system.parse_url s.endpoint)
    where
      go : (r : Result Err Address) → Careful (continue r (open_address system) t).1
      go (ok address) = open_address-Careful address t c
      go (err e) = c

  -- In every run of a process, a path is removed only if `Stat`, immediately before, has found a socket
  -- there; and a socket is opened only where that look found nothing, or what it found has just been
  -- removed.
  pub run-Careful : Careful (run system []).1
  unfolding run ◌>>=◌ Loaded Prepared act
  run-Careful = go _ _ (load-Loaded system)
    where
      serving :
          (r : Result Err (Unit {0})) (t : Trace)
          → Careful t
          → Careful (continue r (λ _. act served (λ h. failure (system.serve h))) t).1
      serving (ok _) t c = c
      serving (err e) t c = c

      opened :
          (s : Settings) (r : Result Err (Unit {0})) (t : Trace)
          → Prepared system s.role r t
          → Careful
              (continue r (λ _. listen system s >> act served (λ h. failure (system.serve h))) t).1
      opened s (ok _) t (all, identity, own) =
          serving (listen system s t).0 (listen system s t).1
            (listen-Careful s t (Preparing-Careful s.role t all))
      opened s (err e) t all = Preparing-Careful s.role t all

      go :
          (r : Result Err Settings) (t : Trace)
          → Loaded system r t
          → Careful
              (continue r
                (λ s. register_services system s >>= λ _.
                  listen system s >> act served (λ h. failure (system.serve h)))
                t).1
      go (ok s) t all =
          opened s (register_services system s t).0 (register_services system s t).1
            (services-Prepared system s t all)
      go (err e) t all = Preparing-Careful node t all
