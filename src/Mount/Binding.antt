-- ===== src/Mount/Binding.antt =====
-- internal/mount/mount.go: what a successful bind mount of `Mount` has run.
use t_cloud_public_csi_drive.Common.{
  Memᴰ, ◌++◌, ℕ, ◌≡◌, ◌≢◌, refl, Bool, true, false, Option, none, some, String, List, ◌∷◌, arith,
  str_eq, eq_iff,
}
use t_cloud_public_csi_drive.Eff.{Result, ok, err, raise, attempt, ◌>>=◌}
use t_cloud_public_csi_drive.Eff.Rules.{Good, Any, EndsIn, EndsIn-raise, EndsIn-bind}
use t_cloud_public_csi_drive.Errors.{Err}
use t_cloud_public_csi_drive.Host.{Host, HostContext, HostHistory, H, statfs, command, host_actions}
use t_cloud_public_csi_drive.Mount.{
  contains, bind_flavor, options_of_flags, remount_options, mount_arguments,
}
use t_cloud_public_csi_drive.Mount.Remount.{remount_options-contains}
use t_cloud_public_csi_drive.Mount.Filesystem.{failed_as, or_context_error}
use t_cloud_public_csi_drive.Mount.Operations.{
  source_options, run_mount, remount_bind, roll_back_bind, after_remount, bind_mount, mount_once,
  mount_unless, mount,
}

module _ {P : HostHistory → Type 0} (host : Host) (ctx : HostContext) where
  raised-EndsIn : (e : Err) → EndsIn P (or_context_error host ctx {A = Unit {0}} e)
  unfolding or_context_error
  raised-EndsIn e = EndsIn-bind _ _ (λ _. EndsIn-bind _ _ (λ _. EndsIn-raise e))

module _ (host : Host) (ctx : HostContext) (source target fs_type : String) where
  -- The last thing that happened is the command that mounts with these options.
  abbrev RanWith : List String → HostHistory → Type 0
  RanWith options now =
      (before : HostHistory) × (now
        ≡ command "mount" (mount_arguments source target fs_type options) ∷ before)

  failed_as-EndsIn :
      (P : HostHistory → Type 0) (e : Err) (o : Option Err) (h : HostHistory)
      → P h
      → Good (λ _. P (failed_as host ctx e o h).1) Any (failed_as host ctx e o h).0
  unfolding failed_as host_actions
  failed_as-EndsIn P e none h p = p
  failed_as-EndsIn P e (some x) h p = (raised-EndsIn {P = P} host ctx e).at h

  run_mount-EndsIn :
      (options : List String)
      → EndsIn (RanWith options) (run_mount host ctx source target fs_type options)
  unfolding run_mount host_actions
  run_mount-EndsIn options = record { at = λ h. failed_as-EndsIn (RanWith options) _ _ _ (h, refl) }

  -- An option that the remount restates: of the caller or of the source, but not a word for the bind or
  -- the remount itself, and not `rw` where the source is read-only.
  abbrev Restated : List String → List String → String → Type 0
  Restated of_source options o =
      Memᴰ o (of_source ++ options)
      × (o ≢ "bind")
      × (o ≢ "rbind")
      × (o ≢ "remount")
      × (o ≡ "rw" → contains of_source "ro" ≡ false)

  -- The last thing that happened is a remount; its options have each one that it is to restate, of the
  -- caller and of the flags that the source was mounted with.
  pub record Remounted (options : List String) (now : HostHistory) : Type 0 where
    pub flags : ℕ
    pub moment : HostHistory
    pub of_source : host.mount_flags source moment ≡ ok flags
    pub last : RanWith (remount_options (options_of_flags flags) options) now
    pub restates :
        (o : String)
        → Restated (options_of_flags flags) options o
        → contains (remount_options (options_of_flags flags) options) o ≡ true

  restates_lem :
      (of_source options : List String) (o : String)
      → Restated of_source options o
      → contains (remount_options of_source options) o ≡ true
  restates_lem of_source options o (there, bind, rbind, again, rw_free) =
      remount_options-contains of_source options o there
        (ground (arith, eq_iff o "bind", eq_iff o "rbind", eq_iff o "remount", eq_iff o "rw"))

  remount_bind-EndsIn :
      (options : List String)
      → EndsIn (Remounted options) (remount_bind host ctx source target fs_type options)
  unfolding remount_bind host_actions
  remount_bind-EndsIn options = record { at = λ h. go (host.mount_flags source h) h refl }
    where
      rest : Result Err ℕ → H (Unit {0})
      rest r = source_options host r >>= λ of_source.
          run_mount host ctx source target fs_type (remount_options of_source options)

      weaken :
          (flags : ℕ) (moment : HostHistory)
          → host.mount_flags source moment ≡ ok flags
          → (r : Result Err (Unit {0})) (now : HostHistory)
          → Good (λ _. RanWith (remount_options (options_of_flags flags) options) now) Any r
          → Good (λ _. Remounted options now) Any r
      weaken flags moment e (ok _) now g = record {
        flags = flags;
        moment = moment;
        of_source = e;
        last = g;
        restates = restates_lem (options_of_flags flags) options;
      }
      weaken flags moment e (err x) now g = tt

      go :
          (r : Result Err ℕ) (h : HostHistory)
          → host.mount_flags source h ≡ r
          → Good
              (λ _. Remounted options (rest r (statfs source ∷ h)).1)
              Any
              (rest r (statfs source ∷ h)).0
      go (ok flags) h e = weaken flags h e _ _ (
          (run_mount-EndsIn (remount_options (options_of_flags flags) options)).at
            (statfs source ∷ h))
      go (err x) h e = tt

  after_remount-EndsIn :
      (options : List String)
      → EndsIn (Remounted options) (
          attempt (remount_bind host ctx source target fs_type options)
          >>= after_remount host target)
  unfolding ◌>>=◌ after_remount
  after_remount-EndsIn options = record {
    at = λ h.
        let p = remount_bind host ctx source target fs_type options h in
        go p.0 p.1 ((remount_bind-EndsIn options).at h);
  }
    where
      failing : (e : Err) → EndsIn (Remounted options) (after_remount host target (err e))
      failing e = EndsIn-bind (roll_back_bind host target) (λ _. raise e) (λ _. EndsIn-raise e)

      go :
          (r : Result Err (Unit {0})) (now : HostHistory)
          → Good (λ _. Remounted options now) Any r
          → Good
              (λ _. Remounted options (after_remount host target r now).1)
              Any
              (after_remount host target r now).0
      go (ok _) now g = g
      go (err e) now g = (failing e).at now

  bind_mount-EndsIn :
      (flavor : String) (options : List String)
      → EndsIn (Remounted options) (bind_mount host ctx source target fs_type flavor options)
  unfolding bind_mount
  bind_mount-EndsIn flavor options = EndsIn-bind _ _ (λ _. after_remount-EndsIn options)

  mount_unless-EndsIn :
      (options : List String) (mounted : Bool)
      → str_eq (bind_flavor options) "" ≡ false
      → EndsIn (Remounted options) (mount_unless host ctx source target fs_type options mounted)
  unfolding mount_once
  mount_unless-EndsIn options true bound = rw bound (remount_bind-EndsIn options)
  mount_unless-EndsIn options false bound =
      rw bound (bind_mount-EndsIn (bind_flavor options) options)

  -- A bind that `Mount` reports as done ends with a remount, also where the target was mounted before. Its
  -- options have each option of the caller, and each that the source was mounted with at that moment,
  -- but the words for the bind and the remount, and an `rw` where the source is read-only.
  pub mount-Remounted :
      (options : List String)
      → bind_flavor options ≢ ""
      → EndsIn (Remounted options) (mount host ctx source target fs_type options)
  unfolding mount
  mount-Remounted options bind = EndsIn-bind _ _ (λ _. EndsIn-bind _ _ (λ _.
      EndsIn-bind _ _ (λ stopped. EndsIn-bind _ _ (λ _. EndsIn-bind _ _ (λ mounted.
        mount_unless-EndsIn options mounted (ground (arith, eq_iff (bind_flavor options) "")))))))
