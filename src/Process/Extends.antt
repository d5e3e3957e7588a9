-- ===== src/Process/Extends.antt =====
-- cmd/t-cloud-csi-driver/main.go: parts of the start that add actions of one kind.
use mathlib.Core.List.{append_assoc}
use t_cloud_public_csi_drive.Common.{◌≡◌, refl, sym, ap, ◌∙◌, [], ◌∷◌, ◌++◌, All}
use t_cloud_public_csi_drive.Eff.{Result, ◌>>=◌}
use t_cloud_public_csi_drive.Eff.Rules.{Moves, Moves-bind}
use t_cloud_public_csi_drive.Errors.{Err}
use t_cloud_public_csi_drive.Process.{Action, Trace, Proc, act}

-- Actions of one kind are added.
pub record Extends (Q : Action → Type 0) (t t' : Trace) : Type 0 where
  pub new : Trace
  pub shape : t' ≡ new ++ t
  pub all : All Q new

All-append : (Q : Action → Type 0) (xs ys : Trace) → All Q xs → All Q ys → All Q (xs ++ ys)
All-append Q [] ys a b = b
All-append Q (x ∷ xs) ys a b = (a.0, All-append Q xs ys a.1 b)

module _ {Q : Action → Type 0} where
  pub Extends-same : (t : Trace) → Extends Q t t
  Extends-same t = record { new = []; shape = refl; all = tt }

  pub Extends-trans : (s t u : Trace) → Extends Q s t → Extends Q t u → Extends Q s u
  Extends-trans s t u a b = record {
    new = b.new ++ a.new;
    shape = b.shape ∙ ap (λ x. b.new ++ x) a.shape ∙ sym (append_assoc b.new a.new s);
    all = All-append Q b.new a.new b.all a.all;
  }

  pub Extends-act :
      {A : Type 0} (a : Action) (answer : Trace → Result Err A)
      → Q a
      → Moves (Extends Q) (act a answer)
  unfolding act
  Extends-act a answer q = record { at = λ t. record { new = a ∷ []; shape = refl; all = (q, tt) } }

  pub Extends-bind :
      {A B : Type 0} {m : Proc A} {f : A → Proc B}
      → Moves (Extends Q) m
      → ((a : A) → Moves (Extends Q) (f a))
      → Moves (Extends Q) (m >>= f)
  Extends-bind = Moves-bind Extends-trans Extends-same
