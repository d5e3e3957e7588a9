-- ===== src/Evs/Cloud/Polling.antt =====
-- The polling loops of internal/evs end: `poll` computes the outcome of the loop without fuel, as soon
-- as its context expires after a bounded time.
use t_cloud_public_csi_drive.Common.{
  ℕ, zero, suc, ◌+◌, ◌≤◌, ◌<◌, ◌≡◌, ◌≢◌, refl, Bool, true, false, Option, none, some, [], ◌∷◌,
  arith, if◌then◌else◌,
}
use native.Mathlib.Decide.{dec_le}
use t_cloud_public_csi_drive.Eff.{Result, ok, err}
use t_cloud_public_csi_drive.Eff.Rules.{Moves}
use t_cloud_public_csi_drive.Errors.{Err}
use t_cloud_public_csi_drive.Evs.Cloud.{
  Cloud, Context, timeout, Call, tick, History, M, actions, Verdict, settled, again, poll,
}

abbrev is_tick : Call → Bool
is_tick tick = true
is_tick _ = false

-- The periods that have passed.
unfoldable pub ticks : History → ℕ
ticks [] = 0
ticks (c ∷ h) = let n = ticks h in if is_tick c then suc n else n

-- `context.WithTimeout`: more periods of a second than the timeout has seconds, and the context has ended.
pub record Expires (cloud : Cloud) : Type 0 where
  pub ends :
      (outer : Context) (n : ℕ) (h0 h : History)
      → ticks h0 + n < ticks h
      → cloud.context_err (timeout outer n h0) h ≢ none

-- The loop itself, without fuel: how it gets from a history to its outcome.
pub data Loop (cloud : Cloud) (ctx : Context) {A : Type 0} (observe : M (Verdict A))
    : History → Result Err A × History → Type 0 where
  settles :
      {h h' : History} {a : A}
      → observe h ≡ (ok (settled a), h')
      → Loop cloud ctx observe h (ok a, h')
  breaks :
      {h h' : History} {e : Err} → observe h ≡ (err e, h') → Loop cloud ctx observe h (err e, h')
  stops :
      {h h' : History} {e : Err}
      → observe h ≡ (ok again, h')
      → cloud.context_err ctx (tick ∷ h') ≡ some e
      → Loop cloud ctx observe h (err e, tick ∷ h')
  repeats :
      {h h' : History} {out : Result Err A × History}
      → observe h ≡ (ok again, h')
      → cloud.context_err ctx (tick ∷ h') ≡ none
      → Loop cloud ctx observe (tick ∷ h') out
      → Loop cloud ctx observe h out

ticks-tick : (h : History) → ticks (tick ∷ h) ≡ suc (ticks h)
unfolding ticks
ticks-tick h = refl

abbrev pub Later : History → History → Type 0
Later h h' = ticks h ≤ ticks h'

module _ (cloud : Cloud) (outer : Context) (n : ℕ) (h0 : History) (expires : Expires cloud)
    {A : Type 0} (observe : M (Verdict A)) (later : Moves Later observe) where
  abbrev ctx : Context
  ctx = timeout outer n h0

  after_wait :
      (fuel : ℕ) (h h' : History) (o : Option Err)
      → observe h ≡ (ok again, h')
      → cloud.context_err ctx (tick ∷ h') ≡ o
      → (o ≡ none → Loop cloud ctx observe (tick ∷ h') (poll cloud ctx fuel observe (tick ∷ h')))
      → Loop cloud ctx observe h (poll cloud ctx (suc fuel) observe h)
  unfolding poll actions
  after_wait fuel h h' none e o more = rw e (rw o (Loop.repeats e o (more refl)))
  after_wait fuel h h' (some x) e o more = rw e (rw o (Loop.stops e o))

  settle_now :
      (fuel : ℕ) (h h' : History) (a : A)
      → observe h ≡ (ok (settled a), h')
      → Loop cloud ctx observe h (poll cloud ctx (suc fuel) observe h)
  unfolding poll actions
  settle_now fuel h h' a e = rw e (Loop.settles e)

  break_now :
      (fuel : ℕ) (h h' : History) (x : Err)
      → observe h ≡ (err x, h')
      → Loop cloud ctx observe h (poll cloud ctx (suc fuel) observe h)
  unfolding poll actions
  break_now fuel h h' x e = rw e (Loop.breaks e)

  -- A period that did not end the context is one of those that the timeout allows.
  within_timeout : (h : History) → cloud.context_err ctx h ≡ none → ticks h ≤ ticks h0 + n
  within_timeout h alive = elim (dec_le (ticks h) (ticks h0 + n)) [
    | yes le ↦ le
    | no more ↦ absurd (expires.ends outer n h0 h (omega arith) alive)
  ]

  -- With a round of fuel for each period that is left and two more, `poll` gives the loop's outcome.
  pub poll_ends :
      (fuel : ℕ) (h : History)
      → 0 < fuel
      → ticks h0 + n + 1 < fuel + ticks h
      → Loop cloud ctx observe h (poll cloud ctx fuel observe h)
  poll_ends zero h p lt = absurd (omega arith)
  poll_ends (suc fuel) h p lt =
      go (observe h) refl (later.at h) (λ h' q r. poll_ends fuel (tick ∷ h') q r)
    where
      Next : Type 0
      Next =
          (h' : History)
          → 0 < fuel
          → ticks h0 + n + 1 < fuel + ticks (tick ∷ h')
          → Loop cloud ctx observe (tick ∷ h') (poll cloud ctx fuel observe (tick ∷ h'))

      go :
          (out : Result Err (Verdict A) × History)
          → observe h ≡ out
          → ticks h ≤ ticks out.1
          → Next
          → Loop cloud ctx observe h (poll cloud ctx (suc fuel) observe h)
      go (ok (settled a), h') e le next = settle_now fuel h h' a e
      go (err x, h') e le next = break_now fuel h h' x e
      go (ok again, h') e le next =
          after_wait fuel h h' (cloud.context_err ctx (tick ∷ h')) e refl (λ alive.
            let in_time : ticks (tick ∷ h') ≤ ticks h0 + n = within_timeout (tick ∷ h') alive in
            next h' (omega (arith, ticks-tick h')) (omega (arith, ticks-tick h')))
