-- ===== src/Mount/Identity.antt =====
-- internal/mount/mount.go: what `DiscoverDevice` returns.
use t_cloud_public_csi_drive.Common.{
  ◌⊎◌, inl, inr, All-of, ◌≡◌, ◌≢◌, refl, ◌∙◌, Bool, true, false, Option, none, some, String, List,
  [], ◌∷◌, All, All-map, Memᴰ, arith, eq_iff, if◌then◌else◌,
}
use t_cloud_public_csi_drive.Eff.Rules.{
  Any, Yields-Any, Yields-map, Yields, Yields-bind, Yields-pure,
}
use t_cloud_public_csi_drive.Errors.{Err}
use t_cloud_public_csi_drive.Host.{
  Host, HostContext, HostHistory, HostCall, ask, refuse_if, host_actions,
}
use t_cloud_public_csi_drive.Mount.{LinuxMounter, holds_device}
use t_cloud_public_csi_drive.Mount.Device.{
  or_path, is_nil, is_some, candidate_links, resolve_symlink, existing_links, serial_links,
  verify_links, discover_device,
}

Yields-refuse_if : (b : Bool) (e : Err) → Yields (λ _. b ≡ false) Any (refuse_if b e)
unfolding host_actions
Yields-refuse_if true e = record { outcome = λ s. tt }
Yields-refuse_if false e = record { outcome = λ s. refl }

both :
    (P Q R : String → Type 0) (l : List String)
    → All (λ x. P x × Q x) l
    → All R l
    → All (λ x. P x × Q x × R x) l
both P Q R [] p r = tt
both P Q R (x ∷ l) (p, ps) (r, rs) = ((p.0, p.1, r), both P Q R l ps rs)

module _ (host : Host) where
  -- At some moment the path led to the device.
  abbrev pub LedTo : String → String → Type 0
  LedTo device path = (moment : HostHistory) × (or_path path (host.resolved path moment) ≡ device)

  -- At some moment the path existed.
  abbrev pub Existed : String → Type 0
  Existed path = (moment : HostHistory) × (is_some (host.stat_err path moment) ≡ false)

  -- At some moment the path did not exist.
  abbrev pub Missing : String → Type 0
  Missing path = (moment : HostHistory) × (is_some (host.stat_err path moment) ≡ true)

  resolve_symlink-LedTo :
      (path : String) → Yields (λ device. LedTo device path) Any (resolve_symlink host path)
  unfolding resolve_symlink host_actions
  resolve_symlink-LedTo path = record { outcome = λ h. (h, refl) }

  -- A look at a path shows that it exists or that it is missing.
  abbrev Looked : String → Option Err → Type 0
  Looked path gone = (is_some gone ≡ false → Existed path) × (is_some gone ≡ true → Missing path)

  stat-Looked :
      (call : HostCall) (path : String) → Yields (Looked path) Any (ask call (host.stat_err path))
  unfolding host_actions
  stat-Looked call path = record { outcome = λ h. ((λ e. (h, e)), λ e. (h, e)) }

  -- Each link is missing, or existed and is among those that were found.
  abbrev Sorted : List String → List String → Type 0
  Sorted found links = All (λ l. Missing l ⊎ (Existed l × Memᴰ l found)) links

  existing_links-Sorted :
      (links : List String)
      → Yields
          (λ found. All (λ l. Memᴰ l links × Existed l) found × Sorted found links)
          Any
          (existing_links host links)
  unfolding existing_links
  existing_links-Sorted [] = Yields-pure [] (tt, tt)
  existing_links-Sorted (link ∷ rest) = Yields-bind (stat-Looked _ link) (λ gone here.
      Yields-bind (existing_links-Sorted rest) (λ later (found, there). Yields-pure _ (
        kept gone later (λ e. here.0 e)
            (All-map (λ l. Memᴰ l rest × Existed l) (λ l. Memᴰ l (link ∷ rest) × Existed l) later
              (λ l p. (Memᴰ.tail p.0, p.1)) found),
        keep_link gone later here there,
      )))
    where
      kept :
          (gone : Option Err) (later : List String)
          → (is_some gone ≡ false → Existed link)
          → All (λ l. Memᴰ l (link ∷ rest) × Existed l) later
          → All
              (λ l. Memᴰ l (link ∷ rest) × Existed l)
              (if is_some gone then later else link ∷ later)
      kept none later here there = ((Memᴰ.head refl, here refl), there)
      kept (some e) later here there = there

      keep_link :
          (gone : Option Err) (later : List String)
          → Looked link gone
          → Sorted later rest
          → Sorted (if is_some gone then later else link ∷ later) (link ∷ rest)
      keep_link none later here there = (
        inr (here.0 refl, Memᴰ.head refl),
        All-map (λ l. Missing l ⊎ (Existed l × Memᴰ l later))
            (λ l. Missing l ⊎ (Existed l × Memᴰ l (link ∷ later))) rest
            (λ l p. elim p [ inl gone ↦ inl gone | inr found ↦ inr (found.0, Memᴰ.tail found.1) ])
            there,
      )
      keep_link (some e) later here there = (inl (here.1 refl), there)

  verify_links-LedTo :
      (device : String) (links : List String)
      → Yields (λ _. All (LedTo device) links) Any (verify_links host device links)
  unfolding verify_links
  verify_links-LedTo device [] = Yields-pure tt tt
  verify_links-LedTo device (link ∷ rest) = Yields-bind (resolve_symlink-LedTo link) (λ named led.
      Yields-bind (Yields-refuse_if _ _) (λ _ same.
        Yields-map
          (λ _ rest_led. (led_to named led ((eq_iff named device).0 (ground arith)), rest_led))
          (verify_links-LedTo device rest)))
    where
      led_to : (named : String) → LedTo named link → named ≡ device → LedTo device link
      led_to named (moment, led) e = (moment, led ∙ e)

  -- A device that the host shows to be the one of the volume: the published path is a path below the
  -- directory of devices that existed and led to it; and each link that the volume's serials name was
  -- missing or led to it too, and one at least was not missing.
  pub record IsDeviceOf (m : LinuxMounter) (volume_id published device : String) : Type 0 where
    pub held : holds_device m published ≡ true
    pub existed : Existed published
    pub led : LedTo device published
    pub every : All (λ l. Missing l ⊎ (Existed l × LedTo device l)) (candidate_links m volume_id)
    pub links : List String
    pub some_link : links ≢ []
    pub named : All (λ l. Memᴰ l (candidate_links m volume_id) × Existed l × LedTo device l) links

  -- Of sorted links of which some were found and all of these led to the device.
  every_link :
      (device : String) (found links : List String)
      → Sorted found links
      → All (LedTo device) found
      → All (λ l. Missing l ⊎ (Existed l × LedTo device l)) links
  every_link device found links sorted led =
      All-map (λ l. Missing l ⊎ (Existed l × Memᴰ l found))
        (λ l. Missing l ⊎ (Existed l × LedTo device l)) links
        (λ l p. elim p [
          | inl gone ↦ inl gone
          | inr (existed, there) ↦ inr (existed, All-of (LedTo device) led there)
        ])
        sorted

  -- Whatever the host answers, `DiscoverDevice` returns only a device that the published path and every
  -- existing link of the volume led to, and there was such a link.
  pub discover_device-IsDeviceOf :
      (m : LinuxMounter) (ctx : HostContext) (volume_id published : String)
      → Yields
          (IsDeviceOf m volume_id published)
          Any
          (discover_device host m ctx volume_id published)
  unfolding discover_device serial_links
  discover_device-IsDeviceOf m ctx volume_id published = Yields-bind (Yields-Any _) (λ _ _.
      Yields-bind (Yields-Any _) (λ _ _. Yields-bind (Yields-Any _) (λ _ _.
        Yields-bind (Yields-Any _) (λ _ _. Yields-bind (Yields-refuse_if _ _) (λ _ held.
          Yields-bind (stat-Looked _ published) (λ gone here.
            Yields-bind (Yields-refuse_if _ _) (λ _ there.
              Yields-bind (resolve_symlink-LedTo published) (λ device led.
                Yields-bind (existing_links-Sorted (candidate_links m volume_id))
                  (λ links (exist, sorted). Yields-bind (Yields-refuse_if _ _) (λ _ filled.
                    Yields-bind (verify_links-LedTo device links) (λ _ verified.
                      Yields-pure device (record {
                        held = ground arith;
                        existed = here.0 there;
                        led = led;
                        every =
                            every_link device links (candidate_links m volume_id) sorted verified;
                        links = links;
                        some_link = nonempty links filled;
                        named =
                            both (λ x. Memᴰ x (candidate_links m volume_id)) Existed (LedTo device)
                              links exist verified;
                      }))))))))))))
    where
      nonempty : (l : List String) → is_nil l ≡ false → l ≢ []
      nonempty [] e = cc
      nonempty (x ∷ l) e = cc
