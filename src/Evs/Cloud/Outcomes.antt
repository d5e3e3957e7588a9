-- ===== src/Evs/Cloud/Outcomes.antt =====
-- What the actions of internal/evs return and raise.
use t_cloud_public_csi_drive.Common.{ℕ, zero, suc, ◌≡◌, refl, Bool, true, false, Option, none, some}
use t_cloud_public_csi_drive.Eff.{Result, ok, err}
use t_cloud_public_csi_drive.Eff.Rules.{Good, Yields, Yields-bind, Yields-pure, Yields-raise}
pub use t_cloud_public_csi_drive.Eff.Rules.{Any, Yields-Any}
use t_cloud_public_csi_drive.Errors.{Err}
use t_cloud_public_csi_drive.Evs.Classify.Kinds.{IsReported, classify_error-IsReported}
use t_cloud_public_csi_drive.Evs.Cloud.{
  Cloud, Context, M, actions, with_timeout, ctx_err, wait, fail_if, fail_when, fail_classified,
  classified, Verdict, settled, again, next_round, poll,
}

module _ {Q : Err → Type 0} where
  pub Yields-with_timeout : (outer : Context) (n : ℕ) → Yields Any Q (with_timeout outer n)
  unfolding actions
  Yields-with_timeout outer n = record { outcome = λ s. tt }

  pub Yields-ctx_err : (cloud : Cloud) (ctx : Context) → Yields Any Q (ctx_err cloud ctx)
  unfolding actions
  Yields-ctx_err cloud ctx = record { outcome = λ s. tt }

  pub Yields-wait : (cloud : Cloud) (ctx : Context) → Yields Any Q (wait cloud ctx)
  unfolding actions
  Yields-wait cloud ctx = record { outcome = λ s. tt }

pub Yields-fail_if : (o : Option Err) → Yields Any Any (fail_if o)
unfolding actions
Yields-fail_if none = record { outcome = λ s. tt }
Yields-fail_if (some e) = record { outcome = λ s. tt }

pub Yields-fail_classified : (o : Option Err) → Yields Any IsReported (fail_classified o)
unfolding actions
Yields-fail_classified none = record { outcome = λ s. tt }
Yields-fail_classified (some e) = record { outcome = λ s. classify_error-IsReported e }

-- A test that passed is known by what follows it.
pub Yields-fail_when :
    {Q : Err → Type 0} (b : Bool) (e : Err) → Q e → Yields (λ _. b ≡ false) Q (fail_when b e)
unfolding actions
Yields-fail_when true e q = record { outcome = λ s. q }
Yields-fail_when false e q = record { outcome = λ s. refl }

module _ {A : Type 0} where
  pub Yields-classified :
      {P : A → Type 0} (r : Result Err A) → Good P Any r → Yields P IsReported (classified r)
  unfolding actions
  Yields-classified (ok a) g = record { outcome = λ s. g }
  Yields-classified (err e) g = record { outcome = λ s. classify_error-IsReported e }

  abbrev pub OnSettled : (A → Type 0) → Verdict A → Type 0
  OnSettled P (settled a) = P a
  OnSettled P again = Unit

module _ (cloud : Cloud) (ctx : Context) {A : Type 0} (P : A → Type 0) where
  Yields-next_round :
      (v : Verdict A) (later : Unit {0} → M A)
      → OnSettled P v
      → Yields P Any (later tt)
      → Yields P Any (next_round cloud ctx v later)
  unfolding next_round
  Yields-next_round (settled a) later p y = Yields-pure a p
  Yields-next_round again later p y =
      Yields-bind (Yields-wait cloud ctx)
        (λ stopped _. Yields-bind (Yields-fail_if stopped) (λ _ _. y))

  pub Yields-poll :
      (fuel : ℕ) (observe : M (Verdict A))
      → Yields (OnSettled P) Any observe
      → Yields P Any (poll cloud ctx fuel observe)
  unfolding poll
  Yields-poll zero observe y = Yields-raise _ tt
  Yields-poll (suc fuel) observe y =
      Yields-bind y (λ v p. Yields-next_round v _ p (Yields-poll fuel observe y))
