-- ===== src/Process/Serve.antt =====
-- cmd/t-cloud-csi-driver/main.go: `serve`, and how the server is stopped. Times are in milliseconds.
use t_cloud_public_csi_drive.Common.{
  ◌≡◌, refl, ℕ, ◌+◌, ◌≤◌, ◌<◌, not, Option, none, some, List, [], ◌∷◌, arith, if◌then◌else◌, Memᴰ,
  ◌⊎◌, inl, inr,
}
use native.Mathlib.Decide.{dec_le}
use t_cloud_public_csi_drive.Eff.{Result, ok, err}
use t_cloud_public_csi_drive.Errors.{Err, errors_is, server_stopped}

abbrev pub graceful_stop_timeout : ℕ
graceful_stop_timeout = 15000

pub data Call : Type 0 where
  graceful_stop : Call
  stop : Call

-- When the channels that `serve` waits on are ready, if ever: `server.Serve` returns, with its error;
-- the context of the process ends; and, counted from there, `GracefulStop` returns and another
-- signal comes.
pub record Schedule : Type 0 where
  pub server_ends : Option (ℕ × Option Err)
  pub cancelled : Option ℕ
  pub drained : Option ℕ
  pub second_signal : Option ℕ

-- The time is not after that of the other channel.
abbrev pub NotAfter : ℕ → Option ℕ → Type 0
NotAfter t none = Unit
NotAfter t (some u) = t ≤ u

abbrev pub time_of : Option (ℕ × Option Err) → Option ℕ
time_of none = none
time_of (some (t, e)) = some t

abbrev pub served_result : Option Err → Result Err (Unit {0})
served_result none = ok tt
served_result (some e) = if not (errors_is e server_stopped) then err e else ok tt

-- What `serve` returns, the calls of the server it has made, the last first, and when it returns. A
-- `select` takes a channel that is ready first; of several it may take any.
pub data Serves (s : Schedule) : Result Err (Unit {0}) → List Call → ℕ → Type 0 where
  ends :
      {t : ℕ} {e : Option Err}
      → s.server_ends ≡ some (t, e)
      → NotAfter t s.cancelled
      → Serves s (served_result e) [] t
  drains :
      {t d at : ℕ}
      → s.cancelled ≡ some t
      → NotAfter t (time_of s.server_ends)
      → s.drained ≡ some d
      → d ≤ graceful_stop_timeout
      → NotAfter d s.second_signal
      → at ≡ t + d
      → Serves s (ok tt) (graceful_stop ∷ []) at
  interrupted :
      {t d at : ℕ}
      → s.cancelled ≡ some t
      → NotAfter t (time_of s.server_ends)
      → s.second_signal ≡ some d
      → d ≤ graceful_stop_timeout
      → NotAfter d s.drained
      → at ≡ t + d
      → Serves s (ok tt) (stop ∷ graceful_stop ∷ []) at
  times_out :
      {t at : ℕ}
      → s.cancelled ≡ some t
      → NotAfter t (time_of s.server_ends)
      → NotAfter graceful_stop_timeout s.drained
      → NotAfter graceful_stop_timeout s.second_signal
      → at ≡ t + graceful_stop_timeout
      → Serves s (ok tt) (stop ∷ graceful_stop ∷ []) at

-- How `serve` ends after the process is told to stop at a time.
pub record Stops (s : Schedule) (t : ℕ) (r : Result Err (Unit {0})) (calls : List Call) (at : ℕ)
    : Type 0 where
  pub result : r ≡ ok tt
  pub graceful : Memᴰ graceful_stop calls
  pub in_time : at ≤ t + graceful_stop_timeout
  pub finished : Memᴰ stop calls ⊎ ((d : ℕ) × (s.drained ≡ some d) × (at ≡ t + d))

-- The channel is not ready up to that time.
abbrev pub After : ℕ → Option ℕ → Type 0
After t none = Unit
After t (some u) = t < u

earlier-NotAfter : {m d : ℕ} → m ≤ d → (o : Option ℕ) → NotAfter d o → NotAfter m o
earlier-NotAfter le none n = tt
earlier-NotAfter le (some u) n = omega arith

module _ (s : Schedule) (t : ℕ) (cancelled : s.cancelled ≡ some t)
    (serving : After t (time_of s.server_ends)) where
  abbrev Outcome : Type 0
  Outcome = (r : Result Err (Unit {0})) × (calls : List Call) × (at : ℕ) × Serves s r calls at

  not_ended : NotAfter t (time_of s.server_ends)
  not_ended = go (time_of s.server_ends) serving
    where
      go : (o : Option ℕ) → After t o → NotAfter t o
      go none a = tt
      go (some u) a = omega arith

  overdue :
      NotAfter graceful_stop_timeout s.drained
      → NotAfter graceful_stop_timeout s.second_signal
      → Outcome
  overdue a b = (
    ok tt,
    stop ∷ graceful_stop ∷ [],
    t + graceful_stop_timeout,
    Serves.times_out cancelled not_ended a b refl,
  )

  drained_first : (d : ℕ) → s.drained ≡ some d → NotAfter d s.second_signal → Outcome
  drained_first d e first = elim (dec_le d graceful_stop_timeout) [
    | yes le ↦ (ok tt, graceful_stop ∷ [], t + d, Serves.drains cancelled not_ended e le first refl)
    | no more ↦ overdue (rw e (omega arith)) (earlier-NotAfter (omega arith) s.second_signal first)
  ]

  signalled_first : (d : ℕ) → s.second_signal ≡ some d → NotAfter d s.drained → Outcome
  signalled_first d e first = elim (dec_le d graceful_stop_timeout) [
    | yes le ↦ (
      ok tt,
      stop ∷ graceful_stop ∷ [],
      t + d,
      Serves.interrupted cancelled not_ended e le first refl,
    )
    | no more ↦ overdue (earlier-NotAfter (omega arith) s.drained first) (rw e (omega arith))
  ]

  some_outcome : Outcome
  some_outcome = go s.drained s.second_signal refl refl
    where
      go : (d g : Option ℕ) → s.drained ≡ d → s.second_signal ≡ g → Outcome
      go none none ed eg = overdue (rw ed tt) (rw eg tt)
      go (some d) none ed eg = drained_first d ed (rw eg tt)
      go none (some g) ed eg = signalled_first g eg (rw ed tt)
      go (some d) (some g) ed eg = elim (dec_le d g) [
        | yes le ↦ drained_first d ed (rw eg le)
        | no more ↦ signalled_first g eg (rw ed (omega arith))
      ]

  ended_earlier :
      {u : ℕ} {e : Option Err} → s.server_ends ≡ some (u, e) → NotAfter u s.cancelled → ⊥
  ended_earlier {u} eq first =
      let later : t < u = rw eq at serving in
      let earlier : u ≤ t = rw cancelled at first in omega arith

  same_time : {u : ℕ} → s.cancelled ≡ some u → u ≡ t
  same_time {u} e = let both : some u ≡ some t = cc in ground arith

  every-Stops :
      {r : Result Err (Unit {0})} {calls : List Call} {at : ℕ}
      → Serves s r calls at
      → Stops s t r calls at
  every-Stops (ends eq first) = absurd (ended_earlier eq first)
  every-Stops (drains {d} c first e le before at_time) = record {
    result = refl;
    graceful = Memᴰ.head refl;
    in_time = omega (arith, same_time c);
    finished = inr (d, e, omega (arith, same_time c));
  }
  every-Stops (interrupted c first e le before at_time) = record {
    result = refl;
    graceful = Memᴰ.tail (Memᴰ.head refl);
    in_time = omega (arith, same_time c);
    finished = inl (Memᴰ.head refl);
  }
  every-Stops (times_out c first a b at_time) = record {
    result = refl;
    graceful = Memᴰ.tail (Memᴰ.head refl);
    in_time = omega (arith, same_time c);
    finished = inl (Memᴰ.head refl);
  }

  -- Once the context of the process has ended while the server serves, `serve` returns, however long the
  -- requests take; and however it returns, it has no error, has called `GracefulStop`, and is back
  -- fifteen seconds later at most. Either every request was finished when it returned, or it has also
  -- called `Stop`.
  pub serve-Stops :
      ((r : Result Err (Unit {0})) × (calls : List Call) × (at : ℕ) × Serves s r calls at)
      × ((r : Result Err (Unit {0})) (calls : List Call) (at : ℕ)
          → Serves s r calls at
          → Stops s t r calls at)
  serve-Stops = (some_outcome, λ r calls at o. every-Stops o)
