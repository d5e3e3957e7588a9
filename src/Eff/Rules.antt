-- ===== src/Eff/Rules.antt =====
-- Rules about actions, one for each way to build one: what happens to the state, what a value
-- satisfies, and what an error satisfies.
use t_cloud_public_csi_drive.Common.{Bool, true, false, if◌then◌else◌}
use t_cloud_public_csi_drive.Eff.{Result, ok, err, Eff, pure, raise, lift, attempt, continue, ◌>>=◌}

-- From every state, `m` leads to a state that `R` relates to it.
pub record Moves {ℓ} {S E A : Type ℓ} (R : S → S → Type ℓ) (m : Eff S E A) : Type ℓ where
  pub at : (s : S) → R s (m s).1

module _ {ℓ} {S E A : Type ℓ} {R : S → S → Type ℓ} (same : (s : S) → R s s) where
  pub Moves-pure : (a : A) → Moves R (pure {E = E} a)
  unfolding pure
  Moves-pure a = record { at = same }

  pub Moves-raise : (e : E) → Moves R (raise {A = A} e)
  unfolding raise
  Moves-raise e = record { at = same }

  pub Moves-lift : (r : Result E A) → Moves R (lift r)
  unfolding lift
  Moves-lift r = record { at = same }

module _ {ℓ} {S E F A : Type ℓ} {R : S → S → Type ℓ} where
  pub Moves-attempt : {m : Eff S E A} → Moves R m → Moves R (attempt {F = F} m)
  unfolding attempt
  Moves-attempt k = record { at = k.at }

module _ {ℓ} {S E A B : Type ℓ} {R : S → S → Type ℓ} where
  pub Moves-bind :
      {m : Eff S E A} {f : A → Eff S E B}
      → ((s t u : S) → R s t → R t u → R s u)
      → ((s : S) → R s s)
      → Moves R m
      → ((a : A) → Moves R (f a))
      → Moves R (m >>= f)
  unfolding ◌>>=◌
  Moves-bind {m} {f} trans same k l = record { at = λ s. go s (m s) (k.at s) }
    where
      go : (s : S) (p : Result E A × S) → R s p.1 → R s (continue p.0 f p.1).1
      go s (ok a, t) h = trans s t _ h ((l a).at t)
      go s (err e, t) h = h

module _ {ℓ} {S E A : Type ℓ} {R : S → S → Type ℓ} where
  pub Moves-if : (b : Bool) (m n : Eff S E A) → Moves R m → Moves R n → Moves R (if b then m else n)
  Moves-if true m n k l = k
  Moves-if false m n k l = l

-- What an outcome satisfies: `P` of a value, `Q` of an error.
abbrev pub Good {ℓ} : {E A : Type ℓ} → (A → Type ℓ) → (E → Type ℓ) → Result E A → Type ℓ
Good P Q (ok a) = P a
Good P Q (err e) = Q e

-- From every state, the values of `m` satisfy `P` and its errors satisfy `Q`.
pub record Yields {ℓ} {S E A : Type ℓ} (P : A → Type ℓ) (Q : E → Type ℓ) (m : Eff S E A)
    : Type ℓ where
  pub outcome : (s : S) → Good P Q (m s).0

module _ {ℓ} {S E A : Type ℓ} {P : A → Type ℓ} {Q : E → Type ℓ} where
  pub Yields-pure : (a : A) → P a → Yields {S = S} P Q (pure a)
  unfolding pure
  Yields-pure a p = record { outcome = λ s. p }

  pub Yields-raise : (e : E) → Q e → Yields {S = S} P Q (raise e)
  unfolding raise
  Yields-raise e q = record { outcome = λ s. q }

  pub Yields-lift : (r : Result E A) → Good P Q r → Yields {S = S} P Q (lift r)
  unfolding lift
  Yields-lift r g = record { outcome = λ s. g }

module _ {ℓ} {S E F A : Type ℓ} {P : A → Type ℓ} {Q : E → Type ℓ} {R : F → Type ℓ} where
  pub Yields-attempt : {m : Eff S E A} → Yields P Q m → Yields (Good P Q) R (attempt m)
  unfolding attempt
  Yields-attempt y = record { outcome = y.outcome }

module _ {ℓ} {S E A B : Type ℓ} {P : A → Type ℓ} {R : B → Type ℓ} {Q : E → Type ℓ} where
  pub Yields-bind :
      {m : Eff S E A} {f : A → Eff S E B}
      → Yields P Q m
      → ((a : A) → P a → Yields R Q (f a))
      → Yields R Q (m >>= f)
  unfolding ◌>>=◌
  Yields-bind {m} {f} y z = record { outcome = λ s. go (m s) (y.outcome s) }
    where
      go : (p : Result E A × S) → Good P Q p.0 → Good R Q (continue p.0 f p.1).0
      go (ok a, t) g = (z a g).outcome t
      go (err e, t) g = g

-- No statement about a value or an error.
abbrev pub Any {ℓ} : {A : Type ℓ} → A → Type ℓ
Any _ = Unit

pub Yields-Any {ℓ} : {S E A : Type ℓ} (m : Eff S E A) → Yields Any Any m
Yields-Any m = record { outcome = λ s. go (m s).0 }
  where
    go : {E A : Type ℓ} (r : Result E A) → Good Any Any r
    go (ok a) = tt
    go (err e) = tt

pub Yields-map {ℓ} :
    {S E A : Type ℓ} {P P' : A → Type ℓ} {Q : E → Type ℓ} {m : Eff S E A}
    → ((a : A) → P a → P' a)
    → Yields P Q m
    → Yields P' Q m
Yields-map {S} {E} {A} {P} {P'} {Q} {m} f y = record { outcome = λ s. go (m s).0 (y.outcome s) }
  where
    go : (r : Result E A) → Good P Q r → Good P' Q r
    go (ok a) p = f a p
    go (err e) q = q

-- `m` succeeds only in a state of `P`.
pub record EndsIn {ℓ} {S E A : Type ℓ} (P : S → Type ℓ) (m : Eff S E A) : Type ℓ where
  pub at : (s : S) → Good (λ _. P (m s).1) Any (m s).0

module _ {ℓ} {S E : Type ℓ} {P : S → Type ℓ} where
  pub EndsIn-raise : {A : Type ℓ} (e : E) → EndsIn {A = A} P (raise e)
  unfolding raise
  EndsIn-raise e = record { at = λ s. tt }

  pub EndsIn-bind :
      {A B : Type ℓ} (m : Eff S E A) (f : A → Eff S E B)
      → ((a : A) → EndsIn P (f a))
      → EndsIn P (m >>= f)
  unfolding ◌>>=◌
  EndsIn-bind {A} m f c = record { at = λ s. go (m s) }
    where
      go : (p : Result E A × S) → Good (λ _. P (continue p.0 f p.1).1) Any (continue p.0 f p.1).0
      go (ok a, s) = (c a).at s
      go (err e, s) = tt

module _ {ℓ} {S E A B : Type ℓ} {P : S → Type ℓ} {V : A → Type ℓ} where
  pub EndsIn-given :
      {m : Eff S E A} {f : A → Eff S E B}
      → Yields V Any m
      → ((a : A) → V a → EndsIn P (f a))
      → EndsIn P (m >>= f)
  unfolding ◌>>=◌
  EndsIn-given {m} {f} y c = record { at = λ s. go (m s) (y.outcome s) }
    where
      go :
          (p : Result E A × S)
          → Good V Any p.0
          → Good (λ _. P (continue p.0 f p.1).1) Any (continue p.0 f p.1).0
      go (ok a, s) v = (c a v).at s
      go (err e, s) v = tt

module _ {ℓ} {S E A : Type ℓ} {P Q : S → Type ℓ} where
  pub EndsIn-map : {m : Eff S E A} → ((s : S) → P s → Q s) → EndsIn P m → EndsIn Q m
  EndsIn-map {m} f c = record { at = λ s. go (m s) (c.at s) }
    where
      go : (p : Result E A × S) → Good (λ _. P p.1) Any p.0 → Good (λ _. Q p.1) Any p.0
      go (ok a, s) q = f s q
      go (err e, s) q = tt
