-- ===== src/Mount/Made.antt =====
-- internal/mount/mount.go: where an action comes to make a filesystem, and how many:
-- one rule for each way to build the action.
use t_cloud_public_csi_drive.Common.{
  ◌≡◌, refl, ◌∙◌, ap, Bool, true, false, ◌⊎◌, inl, inr, ◌∷◌, if◌then◌else◌,
}
use t_cloud_public_csi_drive.Eff.{Result, ok, err, Eff, attempt, continue, ◌>>=◌}
use t_cloud_public_csi_drive.Eff.Rules.{Moves, Any, Good, Yields, Yields-Any}
use t_cloud_public_csi_drive.Host.{HostCall, HostHistory}
use t_cloud_public_csi_drive.Mount.Quiet.{formats, Same}

-- Since the history `h` one command made a filesystem, and it and a moment on its way there are of `P`.
pub record Made (P : HostCall → HostHistory → Type 0) (h now : HostHistory) : Type 0 where
  pub call : HostCall
  pub moment : HostHistory
  pub one : formats now ≡ call ∷ formats h
  pub reason : P call moment

-- `m` makes no filesystem, or one that is of `P`.
pub record MadeAfter (P : HostCall → HostHistory → Type 0) {E A : Type 0} (m : Eff HostHistory E A)
    : Type 0 where
  pub outcome : (h : HostHistory) → Same h (m h).1 ⊎ Made P h (m h).1

module _ {P : HostCall → HostHistory → Type 0} where
  -- What made none before or after does not change the outcome.
  later :
      (h h' now : HostHistory) → Same h h' → Same h' now ⊎ Made P h' now → Same h now ⊎ Made P h now
  later h h' now e (inl same) = inl (same ∙ e)
  later h h' now e (inr made) = inr (record {
    call = made.call;
    moment = made.moment;
    one = made.one ∙ ap (λ l. made.call ∷ l) e;
    reason = made.reason;
  })

  earlier :
      (h h' now : HostHistory) → Same h' now → Same h h' ⊎ Made P h h' → Same h now ⊎ Made P h now
  earlier h h' now e (inl same) = inl (e ∙ same)
  earlier h h' now e (inr made) =
      inr (record {
        call = made.call;
        moment = made.moment;
        one = e ∙ made.one;
        reason = made.reason;
      })

module _ {P : HostCall → HostHistory → Type 0} {E : Type 0} where
  pub MadeAfter-quiet : {A : Type 0} {m : Eff HostHistory E A} → Moves Same m → MadeAfter P m
  MadeAfter-quiet q = record { outcome = λ h. inl (q.at h) }

  -- A first part that makes none, and values of it that the rest may rely on.
  pub MadeAfter-given :
      {A B : Type 0} {V : A → Type 0} {m : Eff HostHistory E A} {f : A → Eff HostHistory E B}
      → Moves Same m
      → Yields V Any m
      → ((a : A) → V a → MadeAfter P (f a))
      → MadeAfter P (m >>= f)
  unfolding ◌>>=◌
  MadeAfter-given {A} {B} {V} {m} {f} q y c = record {
    outcome = λ h. go h (m h) (q.at h) (y.outcome h);
  }
    where
      go :
          (h : HostHistory) (p : Result E A × HostHistory)
          → Same h p.1
          → Good V Any p.0
          → Same h (continue p.0 f p.1).1 ⊎ Made P h (continue p.0 f p.1).1
      go h (ok a, h') e v = later h h' _ e ((c a v).outcome h')
      go h (err x, h') e v = inl e

  pub MadeAfter-bind :
      {A B : Type 0} {m : Eff HostHistory E A} {f : A → Eff HostHistory E B}
      → Moves Same m
      → ((a : A) → MadeAfter P (f a))
      → MadeAfter P (m >>= f)
  MadeAfter-bind q c = MadeAfter-given q (Yields-Any _) (λ a _. c a)

  -- A rest that makes none.
  pub MadeAfter-then :
      {A B : Type 0} {m : Eff HostHistory E A} {f : A → Eff HostHistory E B}
      → MadeAfter P m
      → ((a : A) → Moves Same (f a))
      → MadeAfter P (m >>= f)
  unfolding ◌>>=◌
  MadeAfter-then {A} {B} {m} {f} c q = record { outcome = λ h. go h (m h) (c.outcome h) }
    where
      go :
          (h : HostHistory) (p : Result E A × HostHistory)
          → Same h p.1 ⊎ Made P h p.1
          → Same h (continue p.0 f p.1).1 ⊎ Made P h (continue p.0 f p.1).1
      go h (ok a, h') o = earlier h h' _ ((q a).at h') o
      go h (err x, h') o = o

module _ {P : HostCall → HostHistory → Type 0} {E F A : Type 0} where
  pub MadeAfter-attempt :
      {m : Eff HostHistory E A} → MadeAfter P m → MadeAfter P (attempt {F = F} m)
  unfolding attempt
  MadeAfter-attempt c = record { outcome = c.outcome }

module _ {P : HostCall → HostHistory → Type 0} {E A : Type 0} where
  pub MadeAfter-if :
      (b : Bool) (m n : Eff HostHistory E A)
      → (b ≡ true → MadeAfter P m)
      → (b ≡ false → MadeAfter P n)
      → MadeAfter P (if b then m else n)
  MadeAfter-if true m n c d = c refl
  MadeAfter-if false m n c d = d refl

module _ {P Q : HostCall → HostHistory → Type 0} {E A : Type 0} where
  pub MadeAfter-map :
      {m : Eff HostHistory E A}
      → ((c : HostCall) (h : HostHistory) → P c h → Q c h)
      → MadeAfter P m
      → MadeAfter Q m
  MadeAfter-map {m} f made = record { outcome = λ h. go h (m h).1 (made.outcome h) }
    where
      go : (h now : HostHistory) → Same h now ⊎ Made P h now → Same h now ⊎ Made Q h now
      go h now (inl same) = inl same
      go h now (inr made) = inr (record {
        call = made.call;
        moment = made.moment;
        one = made.one;
        reason = f made.call made.moment made.reason;
      })
