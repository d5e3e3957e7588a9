-- ===== src/Evs/Cloud/Later.antt =====
-- The requests of internal/evs never take a period back: rules for the time that an action takes.
use t_cloud_public_csi_drive.Common.{Option, none, some, ◌∷◌, arith}
use t_cloud_public_csi_drive.Eff.{Result, pure, raise}
use t_cloud_public_csi_drive.Eff.Rules.{
  Moves, Moves-pure, Moves-raise, Moves-lift, Moves-attempt, Moves-bind,
}
use t_cloud_public_csi_drive.Errors.{Err}
use t_cloud_public_csi_drive.Evs.Cloud.{Cloud, Context, Call, History, request, ctx_err, fail_if}
use t_cloud_public_csi_drive.Evs.Cloud.Polling.{ticks, Later}

pub Later-refl : (h : History) → Later h h
Later-refl h = omega arith

pub Later-trans : (h i j : History) → Later h i → Later i j → Later h j
Later-trans h i j p q = omega arith

Later-cons : (c : Call) (h : History) → Later h (c ∷ h)
unfolding ticks
Later-cons c h = ground arith

pub Moves-request :
    {A : Type 0} (c : Call) (answer : History → Result Err A) → Moves Later (request c answer)
unfolding request
Moves-request c answer = record { at = Later-cons c }

module _ (cloud : Cloud) where
  pub Moves-ctx_err : (ctx : Context) → Moves Later (ctx_err cloud ctx)
  unfolding ctx_err
  Moves-ctx_err ctx = record { at = Later-cons _ }

pub Moves-fail_if : (o : Option Err) → Moves Later (fail_if o)
unfolding fail_if pure raise
Moves-fail_if none = record { at = Later-refl }
Moves-fail_if (some e) = record { at = Later-refl }

pub ruleset later_rules = (
  Later-refl, Later-trans, Moves-pure, Moves-raise, Moves-lift, Moves-attempt, Moves-bind,
  Moves-request, Moves-ctx_err, Moves-fail_if,
)
