-- ===== src/Eff.antt =====
-- A step of the program: it reads and changes a state, and returns a value or an error. What was
-- done before an error stays done, so the state comes back beside the error too.
pub mod Rules
use t_cloud_public_csi_drive.Common.{◌≡◌, refl}

pub data Result {ℓ} (E A : Type ℓ) : Type ℓ where
  ok : A → Result E A
  err : E → Result E A

abbrev pub Eff {ℓ} : Type ℓ → Type ℓ → Type ℓ → Type ℓ
Eff S E A = S → Result E A × S

module _ {ℓ} {S E A : Type ℓ} where
  unfoldable pub pure : A → Eff S E A
  pure a s = (ok a, s)

  unfoldable pub raise : E → Eff S E A
  raise e s = (err e, s)

  unfoldable pub lift : Result E A → Eff S E A
  lift r s = (r, s)

module _ {ℓ} {S E F A : Type ℓ} where
  -- `v, err := m()`: the error is a value for the code that follows.
  unfoldable pub attempt : Eff S E A → Eff S F (Result E A)
  attempt m s = let (r, s') = m s in (ok r, s')

module _ {ℓ} {S E A B : Type ℓ} where
  abbrev pub continue : Result E A → (A → Eff S E B) → Eff S E B
  continue (ok a) f s = f a s
  continue (err e) f s = (err e, s)

  -- `v, err := m(); if err != nil { return err }`. To open this opens the other actions too.
  infixl 5 ◌>>=◌ ◌>>◌
  unfoldable pub ◌>>=◌ : Eff S E A → (A → Eff S E B) → Eff S E B
  unfolding pure raise lift attempt
  ◌>>=◌ m f s = let (r, s') = m s in continue r f s'

  abbrev pub ◌>>◌ : Eff S E A → Eff S E B → Eff S E B
  m >> n = m >>= λ _. n
