-- ===== src/Mount/Rollback.antt =====
-- internal/mount/mount.go: what a bind whose remount fails leaves behind.
use mathlib.Core.List.{append_assoc}
use t_cloud_public_csi_drive.Common.{
  sym, not, ◌&&◌, Bool-cases, ap, ◌∙◌, ◌⊎◌, inl, inr, ◌≡◌, refl, Bool, true, false, Option, none,
  some, String, List, [], ◌∷◌, ◌++◌, arith, str_eq,
}
use t_cloud_public_csi_drive.Eff.{Result, ok, err, attempt, continue, ◌>>=◌}
use t_cloud_public_csi_drive.Errors.{Err, errors_is, not_exist}
use t_cloud_public_csi_drive.Host.{
  context_error, refuse_if, refuse_on, Host, HostContext, detached, HostHistory, H, command,
  read_context, read_mount_point, host_actions,
}
use t_cloud_public_csi_drive.Mount.{bind_flavor, bind_options}
use t_cloud_public_csi_drive.Mount.Operations.{
  mount_point_of, is_mount_point, after_umount, unmount_if, unmount, roll_back_bind, after_remount,
  run_mount, remount_bind, bind_mount, mount_once,
}

-- `umount` of the target, run since the history `h`.
pub record Ran (target : String) (h now : HostHistory) : Type 0 where
  pub before : HostHistory
  pub since : HostHistory
  pub after : HostHistory
  pub follows : before ≡ since ++ h
  pub runs : now ≡ after ++ command "umount" (target ∷ []) ∷ before

module _ (host : Host) (ctx : HostContext) (target : String) where
  -- Whether an answer about a path shows a mount point: a corrupted one is one too.
  abbrev pub shows_mount_point : Result Err Bool → Bool
  shows_mount_point (ok mounted) = mounted
  shows_mount_point (err e) = not (errors_is e not_exist) && host.is_corrupted e

  -- A reason not to run `umount`: the time of the context was over, or the host did not show the target
  -- as a mount point.
  pub data Excuse : Type 0 where
    out_of_time : (moment : HostHistory) (e : Err) → host.context_err ctx moment ≡ some e → Excuse
    not_mounted :
        (moment : HostHistory) → shows_mount_point (host.mount_point target moment) ≡ false → Excuse

  after_umount-after :
      (output : String) (o : Option Err) (h : HostHistory)
      → (after : HostHistory) × ((after_umount host ctx output o h).1 ≡ after ++ h)
  unfolding after_umount host_actions
  after_umount-after output none h = ([], refl)
  after_umount-after output (some e) h = (read_context ctx ∷ [], ground arith)

  mount_point_of-same : (r : Result Err Bool) (h : HostHistory) → (mount_point_of host r h).1 ≡ h
  unfolding host_actions
  mount_point_of-same (ok b) h = refl
  mount_point_of-same (err e) h = ground arith

  shown_lem :
      (r : Result Err Bool) (h : HostHistory)
      → shows_mount_point r ≡ true
      → (mount_point_of host r h).0 ≡ ok true
  unfolding host_actions
  shown_lem (ok b) h e = ap ok e
  shown_lem (err x) h e = ground arith

  -- `IsMountPoint` answers that the target is one, since the history `h`.
  abbrev Found : HostHistory → Result Err Bool × HostHistory → Type 0
  Found h p = (p.0 ≡ ok true) × (since : HostHistory) × (p.1 ≡ since ++ h)

  checked_or :
      {B : Type 0} (P : Result Err B × HostHistory → Type 0) (rest : Unit {0} → H B)
      (h : HostHistory)
      → P (rest tt (read_context ctx ∷ h)) ⊎ Excuse
      → P ((context_error host ctx >>= λ stopped. refuse_on stopped >>= rest) h) ⊎ Excuse
  unfolding host_actions
  checked_or {B} P rest h found = go (host.context_err ctx h) refl
    where
      go :
          (o : Option Err)
          → host.context_err ctx h ≡ o
          → P ((refuse_on o >>= rest) (read_context ctx ∷ h)) ⊎ Excuse
      go none e = found
      go (some x) e = inr (out_of_time h x e)

  answered-Found :
      (r : Result Err Bool) (start h since : HostHistory)
      → host.mount_point target h ≡ r
      → read_mount_point target ∷ h ≡ since ++ start
      → Found start (mount_point_of host r (read_mount_point target ∷ h)) ⊎ Excuse
  unfolding host_actions
  answered-Found r start h since e later = elim (Bool-cases (shows_mount_point r)) [
    | inl shown ↦
        inl
          (shown_lem r (read_mount_point target ∷ h) shown, since, mount_point_of-same r _ ∙ later)
    | inr hidden ↦ inr (not_mounted h (rw e hidden))
  ]

  module _ (given : str_eq target "" ≡ false) where
    given_lem :
        {B : Type 0} (P : Result Err B × HostHistory → Type 0) (x : Err) (rest : Unit {0} → H B)
        (h : HostHistory)
        → P (rest tt h)
        → P ((refuse_if (str_eq target "") x >>= rest) h)
    unfolding host_actions
    given_lem P x rest h p = rw given p

    is_mount_point-Found : (h : HostHistory) → Found h (is_mount_point host ctx target h) ⊎ Excuse
    unfolding is_mount_point host_actions
    is_mount_point-Found h =
        given_lem (λ p. Found h p ⊎ Excuse) _ _ h
          (checked_or (Found h) _ h (
            answered-Found _ h (read_context ctx ∷ h)
              (read_mount_point target ∷ read_context ctx ∷ []) refl refl))

    unmount_if-Ran :
        (p : Result Err Bool × HostHistory) (h : HostHistory)
        → Found (read_context ctx ∷ h) p
        → Ran target h (continue p.0 (unmount_if host ctx target) p.1).1
    unfolding host_actions
    unmount_if-Ran (r, s) h (e, since, later) = rw e (
        let done = host.run "umount" (target ∷ []) s in
        let (after, shape) =
          after_umount-after done.output done.failure (command "umount" (target ∷ []) ∷ s) in
        record {
          before = s;
          since = since ++ read_context ctx ∷ [];
          after = after;
          follows = later ∙ sym (append_assoc since (read_context ctx ∷ []) h);
          runs = shape;
        })

    -- `Unmount` runs `umount`, or has an excuse.
    unmount-Ran : (h : HostHistory) → Ran target h (unmount host ctx target h).1 ⊎ Excuse
    unfolding unmount host_actions
    unmount-Ran h =
        given_lem (λ p. Ran target h p.1 ⊎ Excuse) _ _ h
          (checked_or (λ p. Ran target h p.1) _ h
            (elim (is_mount_point-Found (read_context ctx ∷ h)) [
              | inl found ↦ inl (unmount_if-Ran _ h found)
              | inr excuse ↦ inr excuse
            ]))

module _ (host : Host) (ctx : HostContext) (source target fs_type : String)
    (options : List String) where
  -- A remount that failed with `e`, and what was done about the bind before it.
  pub record RolledBack (e : Err) (now : HostHistory) : Type 0 where
    pub moment : HostHistory
    pub failed : (remount_bind host ctx source target fs_type options moment).0 ≡ err e
    pub undone :
        Ran target (remount_bind host ctx source target fs_type options moment).1 now
        ⊎ Excuse host detached target

  abbrev remounted : HostHistory → Result Err (Unit {0}) × HostHistory
  remounted h = remount_bind host ctx source target fs_type options h

  undone_lem :
      (e : Err) (h : HostHistory) (r : Result Err (Unit {0}))
      → str_eq target "" ≡ false
      → (remounted h).0 ≡ r
      → (after_remount host target r (remounted h).1).0 ≡ err e
      → RolledBack e (after_remount host target r (remounted h).1).1
  unfolding after_remount roll_back_bind host_actions
  undone_lem e h (ok _) given failed same = absurd (ground arith)
  undone_lem e h (err x) given failed same = record {
    moment = h;
    failed = failed ∙ same;
    undone = unmount-Ran host detached target given (remounted h).1;
  }

  -- For a target that is given: if a bind of `mount` fails, then its first command failed with that
  -- error, or else its remount did, and `umount` of the target was run after that, unless the time of
  -- the rollback's own context was over or the host showed no mount point there. So the caller's
  -- cancellation does not keep a bind without its options in place.
  pub mount_once-RolledBack :
      (h : HostHistory) (e : Err)
      → str_eq target "" ≡ false
      → str_eq (bind_flavor options) "" ≡ false
      → (mount_once host ctx source target fs_type options h).0 ≡ err e
      → ((run_mount host ctx source target fs_type (bind_options (bind_flavor options) options) h).0
          ≡ err e)
        ⊎ RolledBack e (mount_once host ctx source target fs_type options h).1
  unfolding mount_once bind_mount ◌>>=◌
  mount_once-RolledBack h e given bind = rw bind (λ failed.
      go (run_mount host ctx source target fs_type (bind_options (bind_flavor options) options) h)
        failed)
    where
      rest : Unit {0} → H (Unit {0})
      rest _ =
          attempt (remount_bind host ctx source target fs_type options)
          >>= after_remount host target

      go :
          (p : Result Err (Unit {0}) × HostHistory)
          → (continue p.0 rest p.1).0 ≡ err e
          → (p.0 ≡ err e) ⊎ RolledBack e (continue p.0 rest p.1).1
      go (ok _, s) failed = inr (undone_lem e s (remounted s).0 given refl failed)
      go (err x, s) failed = inl failed
