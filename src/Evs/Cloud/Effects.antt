-- ===== src/Evs/Cloud/Effects.antt =====
-- How many requests of a kind an action makes.
use t_cloud_public_csi_drive.Common.{
  ℕ, zero, suc, ◌+◌, ◌≤◌, ◌≡◌, Bool, true, false, Option, none, some, [], ◌∷◌, arith, if◌then◌else◌,
}
use t_cloud_public_csi_drive.Eff.{Result, ok, err, Eff, pure, raise, lift, attempt, continue, ◌>>=◌}
use t_cloud_public_csi_drive.Errors.{Err}
use t_cloud_public_csi_drive.Evs.Cloud.{
  Cloud, Context, Call, create_request, delete_request, attach_request, detach_request, History, M,
  actions, request, with_timeout, ctx_err, wait, fail_when, fail_if, fail_classified, classified,
  Verdict, settled, again, next_round, poll,
}

-- The requests that change the cloud.
abbrev pub is_effect : Call → Bool
is_effect (create_request _) = true
is_effect (delete_request _) = true
is_effect (attach_request _ _) = true
is_effect (detach_request _ _ _) = true
is_effect _ = false

unfoldable pub effects : History → ℕ
effects [] = 0
effects (c ∷ h) = let n = effects h in if is_effect c then suc n else n

-- From every history, `m` makes at most `k` requests that change the cloud.
pub record Spends (k : ℕ) {E A : Type 0} (m : Eff History E A) : Type 0 where
  pub cost : (h : History) → effects (m h).1 ≤ effects h + k

module _ {k : ℕ} {E A : Type 0} where
  pub Spends-pure : (a : A) → Spends k (pure {E = E} a)
  unfolding pure
  Spends-pure a = record { cost = λ h. omega arith }

  pub Spends-raise : (e : E) → Spends k (raise {A = A} e)
  unfolding raise
  Spends-raise e = record { cost = λ h. omega arith }

  pub Spends-lift : (r : Result E A) → Spends k (lift r)
  unfolding lift
  Spends-lift r = record { cost = λ h. omega arith }

  pub Spends-attempt :
      {F : Type 0} {m : Eff History E A} → Spends k m → Spends k (attempt {F = F} m)
  unfolding attempt
  Spends-attempt c = record { cost = c.cost }

module _ {k : ℕ} {A : Type 0} where
  pub Spends-classified : (r : Result Err A) → Spends k (classified r)
  unfolding actions
  Spends-classified (ok a) = record { cost = λ h. omega arith }
  Spends-classified (err e) = record { cost = λ h. omega arith }

  -- A request that only reads.
  pub Spends-read :
      (c : Call) (answer : History → Result Err A)
      → is_effect c ≡ false
      → Spends k (request c answer)
  unfolding actions effects
  Spends-read c answer reads = record { cost = λ h. ground arith }

pub Spends-weaken : {E A : Type 0} {m : Eff History E A} → Spends 0 m → Spends 1 m
Spends-weaken c = record { cost = λ h. omega (arith, c.cost h) }

pub Spends-request :
    {A : Type 0} (c : Call) (answer : History → Result Err A) → Spends 1 (request c answer)
unfolding actions effects
Spends-request c answer = record { cost = λ h. ground arith }

module _ {E A B : Type 0} {f : A → Eff History E B} where
  through :
      (j : ℕ) (n : ℕ) (p : Result E A × History)
      → effects p.1 ≤ n
      → ((a : A) → Spends j (f a))
      → effects (continue p.0 f p.1).1 ≤ n + j
  through j n (ok a, h) le c = omega (arith, (c a).cost h)
  through j n (err e, h) le c = omega arith

module _ {E A B : Type 0} {m : Eff History E A} {f : A → Eff History E B} where
  -- The requests are those of what follows …
  pub Spends-bind : {k : ℕ} → Spends 0 m → ((a : A) → Spends k (f a)) → Spends k (m >>= f)
  unfolding ◌>>=◌
  Spends-bind {k} c d = record {
    cost = λ h. omega (arith, through k (effects h) (m h) (omega (arith, c.cost h)) d);
  }

  -- … or those of the first action.
  pub Spends-then : {k : ℕ} → Spends k m → ((a : A) → Spends 0 (f a)) → Spends k (m >>= f)
  unfolding ◌>>=◌
  Spends-then {k} c d = record {
    cost = λ h. omega (arith, through 0 (effects h + k) (m h) (c.cost h) d);
  }

module _ {k : ℕ} where
  pub Spends-with_timeout : (outer : Context) (n : ℕ) → Spends k (with_timeout outer n)
  unfolding actions
  Spends-with_timeout outer n = record { cost = λ h. omega arith }

  pub Spends-ctx_err : (cloud : Cloud) (ctx : Context) → Spends k (ctx_err cloud ctx)
  unfolding actions effects
  Spends-ctx_err cloud ctx = record { cost = λ h. omega arith }

  pub Spends-wait : (cloud : Cloud) (ctx : Context) → Spends k (wait cloud ctx)
  unfolding actions effects
  Spends-wait cloud ctx = record { cost = λ h. omega arith }

  pub Spends-fail_when : (b : Bool) (e : Err) → Spends k (fail_when b e)
  unfolding actions
  Spends-fail_when true e = record { cost = λ h. omega arith }
  Spends-fail_when false e = record { cost = λ h. omega arith }

  pub Spends-fail_if : (o : Option Err) → Spends k (fail_if o)
  unfolding actions
  Spends-fail_if none = record { cost = λ h. omega arith }
  Spends-fail_if (some e) = record { cost = λ h. omega arith }

  pub Spends-fail_classified : (o : Option Err) → Spends k (fail_classified o)
  unfolding actions
  Spends-fail_classified none = record { cost = λ h. omega arith }
  Spends-fail_classified (some e) = record { cost = λ h. omega arith }

pub Spends-if :
    {k : ℕ} {E A : Type 0} (b : Bool) (m n : Eff History E A)
    → Spends k m
    → Spends k n
    → Spends k (if b then m else n)
Spends-if true m n c d = c
Spends-if false m n c d = d

module _ (cloud : Cloud) (ctx : Context) {A : Type 0} where
  Spends-next_round :
      (v : Verdict A) (later : Unit {0} → M A)
      → Spends 0 (later tt)
      → Spends 0 (next_round cloud ctx v later)
  unfolding next_round
  Spends-next_round (settled a) later c = Spends-pure a
  Spends-next_round again later c =
      Spends-bind (Spends-wait cloud ctx) (λ o. Spends-bind (Spends-fail_if o) (λ _. c))

  -- A polling loop whose observations only read only reads.
  pub Spends-poll :
      (fuel : ℕ) (observe : M (Verdict A))
      → Spends 0 observe
      → Spends 0 (poll cloud ctx fuel observe)
  unfolding poll
  Spends-poll zero observe c = Spends-raise _
  Spends-poll (suc fuel) observe c =
      Spends-bind c (λ v. Spends-next_round v _ (Spends-poll fuel observe c))

pub ruleset reading_rules = (
  Spends-pure, Spends-raise, Spends-lift, Spends-attempt, Spends-classified, Spends-read,
  Spends-bind, Spends-with_timeout, Spends-ctx_err, Spends-wait, Spends-fail_when, Spends-fail_if,
  Spends-fail_classified, Spends-if, Spends-poll,
)
