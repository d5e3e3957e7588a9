-- ===== src/Evs/Cloud/Changes.antt =====
-- The requests that change the cloud, of a history, and the actions that make none.
use t_cloud_public_csi_drive.Common.{
  ◌≡◌, refl, ◌∙◌, Bool, true, false, Option, none, some, List, [], ◌∷◌, arith, if◌then◌else◌,
}
use t_cloud_public_csi_drive.Eff.{Result, ok, err}
use t_cloud_public_csi_drive.Eff.Rules.{
  Moves, Moves-pure, Moves-raise, Moves-lift, Moves-attempt, Moves-bind, Moves-if,
}
use t_cloud_public_csi_drive.Errors.{Err}
use t_cloud_public_csi_drive.Evs.Cloud.{
  Cloud, Context, Call, History, actions, request, ctx_err, wait, fail_when, fail_classified,
  classified,
}
use t_cloud_public_csi_drive.Evs.Cloud.Effects.{is_effect}

-- The requests that change the cloud, the latest first.
unfoldable pub changes : History → List Call
changes [] = []
changes (c ∷ h) = let made = changes h in if is_effect c then c ∷ made else made

abbrev pub Keeps : History → History → Type 0
Keeps h h' = changes h' ≡ changes h

pub Keeps-refl : (h : History) → Keeps h h
Keeps-refl h = refl

pub Keeps-trans : (h i j : History) → Keeps h i → Keeps i j → Keeps h j
Keeps-trans h i j p q = q ∙ p

pub Moves-read :
    {A : Type 0} (c : Call) (answer : History → Result Err A)
    → is_effect c ≡ false
    → Moves Keeps (request c answer)
unfolding actions changes
Moves-read c answer reads = record { at = λ h. ground arith }

pub Moves-ctx_err : (cloud : Cloud) (ctx : Context) → Moves Keeps (ctx_err cloud ctx)
unfolding actions changes
Moves-ctx_err cloud ctx = record { at = λ h. refl }

pub Moves-wait : (cloud : Cloud) (ctx : Context) → Moves Keeps (wait cloud ctx)
unfolding actions changes
Moves-wait cloud ctx = record { at = λ h. refl }

pub Moves-fail_when : (b : Bool) (e : Err) → Moves Keeps (fail_when b e)
unfolding actions
Moves-fail_when true e = record { at = λ h. refl }
Moves-fail_when false e = record { at = λ h. refl }

pub Moves-fail_classified : (o : Option Err) → Moves Keeps (fail_classified o)
unfolding actions
Moves-fail_classified none = record { at = λ h. refl }
Moves-fail_classified (some e) = record { at = λ h. refl }

pub Moves-classified : {A : Type 0} (r : Result Err A) → Moves Keeps (classified r)
unfolding actions
Moves-classified (ok a) = record { at = λ h. refl }
Moves-classified (err e) = record { at = λ h. refl }

pub ruleset keeping_rules = (
  Keeps-refl, Keeps-trans, Moves-pure, Moves-raise, Moves-lift, Moves-attempt, Moves-bind, Moves-if,
  Moves-read, Moves-ctx_err, Moves-wait, Moves-fail_when, Moves-fail_classified, Moves-classified,
)
