-- ===== src/Common/Lists.antt =====
-- Lists under native numbers, Boolean search, filtering and insertion sort by a Boolean order.
use Prim.Native.Nat.{ℕ, zero, suc, ◌+◌, ◌-◌, min}
use mathlib.Core.Path.{◌≡◌, refl, ap, sym, subst}
use mathlib.Core.Logic.{◌≢◌, inl, inr}
use mathlib.Core.Bool.{Bool, true, false, ◌||◌}
use mathlib.Core.List.{List, [], ◌∷◌, ◌++◌, map, Memᴰ}
use mathlib.Core.Option.{Option, none, some}
use native.Mathlib.Omega.{arith}
use t_cloud_public_csi_drive.Common.Tests.{if◌then◌else◌, Bool-cases}

module _ {ℓ} {A : Type ℓ} where
  abbrev pub length : List A → ℕ
  length [] = 0
  length (x ∷ xs) = suc (length xs)

  unfoldable pub take : ℕ → List A → List A
  take zero xs = []
  take (suc n) [] = []
  take (suc n) (x ∷ xs) = x ∷ take n xs

  unfoldable pub drop : ℕ → List A → List A
  drop zero xs = xs
  drop (suc n) [] = []
  drop (suc n) (x ∷ xs) = drop n xs

  pub length-append : (xs ys : List A) → length (xs ++ ys) ≡ length xs + length ys
  length-append [] ys = omega arith
  length-append (x ∷ xs) ys = omega (arith, length-append xs ys)

  pub length-take : (n : ℕ) (xs : List A) → length (take n xs) ≡ min n (length xs)
  unfolding take
  length-take zero xs = omega arith
  length-take (suc n) [] = omega arith
  length-take (suc n) (x ∷ xs) = omega (arith, length-take n xs)

  pub length-drop : (n : ℕ) (xs : List A) → length (drop n xs) ≡ length xs - n
  unfolding drop
  length-drop zero xs = omega arith
  length-drop (suc n) [] = omega arith
  length-drop (suc n) (x ∷ xs) = omega (arith, length-drop n xs)

  pub take-nil : (n : ℕ) → take n [] ≡ []
  unfolding take
  take-nil zero = refl
  take-nil (suc n) = refl

  pub take-append-drop : (n : ℕ) (xs : List A) → take n xs ++ drop n xs ≡ xs
  unfolding take drop
  take-append-drop zero xs = refl
  take-append-drop (suc n) [] = refl
  take-append-drop (suc n) (x ∷ xs) = rw (take-append-drop n xs)

  pub drop-append : (xs ys : List A) → drop (length xs) (xs ++ ys) ≡ ys
  unfolding drop
  drop-append [] ys = refl
  drop-append (x ∷ xs) ys = drop-append xs ys

module _ {ℓ} {A : Type ℓ} where
  -- A list that begins is not empty, and goes on being so under `take` and `map`.
  pub map-take-ne-nil {κ} :
      {B : Type κ} (f : A → B) (n : ℕ) (x : A) (xs : List A) → map f (take (suc n) (x ∷ xs)) ≢ []
  unfolding take
  map-take-ne-nil f n x xs e = cc

  pub length-map {κ} : {B : Type κ} (xs : List A) (f : A → B) → length (map f xs) ≡ length xs
  length-map [] f = refl
  length-map (x ∷ xs) f = ap suc (length-map xs f)

module _ {ℓ} {A : Type ℓ} where
  abbrev pub any : (A → Bool) → List A → Bool
  any p [] = false
  any p (x ∷ xs) = p x || any p xs

  -- The elements that pass a test, in order: a loop with `append` under an `if`.
  abbrev pub keep : (A → Bool) → List A → List A
  keep p [] = []
  keep p (x ∷ xs) = let rest = keep p xs in if p x then x ∷ rest else rest

  -- The first element that passes a test: a loop with an early return.
  abbrev pub find : (A → Bool) → List A → Option A
  find p [] = none
  find p (x ∷ xs) = let rest = find p xs in if p x then some x else rest

  -- A predicate on every element.
  abbrev pub All {κ} : (A → Type κ) → List A → Type κ
  All P [] = Unit
  All P (x ∷ xs) = P x × All P xs

  pub All-of {κ} : (P : A → Type κ) {a : A} {xs : List A} → All P xs → Memᴰ a xs → P a
  All-of P h (Memᴰ.head e) = subst P (sym e) h.0
  All-of P h (Memᴰ.tail m) = All-of P h.1 m

  pub All-map {κ υ} :
      (P : A → Type κ) (Q : A → Type υ) (xs : List A) → ((a : A) → P a → Q a) → All P xs → All Q xs
  All-map P Q [] f h = tt
  All-map P Q (x ∷ xs) f h = (f x h.0, All-map P Q xs f h.1)

module _ {ℓ κ} {A : Type ℓ} (P : A → Type κ) (p : A → Bool) where
  pub find-All : (xs : List A) {a : A} → find p xs ≡ some a → All P xs → P a × (p a ≡ true)
  find-All [] {a} e h = absurd (ground arith)
  find-All (x ∷ xs) {a} e h = elim (Bool-cases (p x)) [
    | inl t ↦ let at_head : x ≡ a = ground arith in subst (λ b. P b × (p b ≡ true)) at_head (h.0, t)
    | inr f ↦ find-All xs (rw f at e) h.1
  ]

  pub keep-All : (xs : List A) → All P xs → All (λ x. P x × (p x ≡ true)) (keep p xs)
  keep-All [] h = tt
  keep-All (x ∷ xs) h = elim (Bool-cases (p x)) [
    | inl t ↦ rw t ((h.0, t), keep-All xs h.1)
    | inr f ↦ rw f (keep-All xs h.1)
  ]

  pub All-of_keep : (xs : List A) → All P (keep p xs) → All (λ x. p x ≡ true → P x) xs
  All-of_keep [] h = tt
  All-of_keep (x ∷ xs) h = elim (Bool-cases (p x)) [
    | inl t ↦ let q : P x × All P (keep p xs) = rw t at h in ((λ _. q.0), All-of_keep xs q.1)
    | inr f ↦ ((λ t. cc), All-of_keep xs (rw f at h))
  ]

module _ {ℓ} {A : Type ℓ} (p : A → Bool) where
  pub find-none : (xs : List A) → find p xs ≡ none → All (λ x. p x ≡ false) xs
  find-none [] e = tt
  find-none (x ∷ xs) e = elim (Bool-cases (p x)) [
    | inl t ↦ absurd (ground arith)
    | inr f ↦ (f, find-none xs (rw f at e))
  ]

  pub keep-eq-nil : (xs : List A) → keep p xs ≡ [] → All (λ x. p x ≡ false) xs
  keep-eq-nil [] e = tt
  keep-eq-nil (x ∷ xs) e = elim (Bool-cases (p x)) [
    | inl t ↦ absurd (ground arith)
    | inr f ↦ (f, keep-eq-nil xs (rw f at e))
  ]

module _ {ℓ} {A : Type ℓ} where
  pub All-Mem : (xs : List A) → All (λ x. Memᴰ x xs) xs
  All-Mem [] = tt
  All-Mem (x ∷ xs) = (
    Memᴰ.head refl,
    All-map (λ y. Memᴰ y xs) (λ y. Memᴰ y (x ∷ xs)) xs (λ y m. Memᴰ.tail m) (All-Mem xs),
  )

module _ {ℓ} {A : Type ℓ} where
  unfoldable pub repeat : ℕ → A → List A
  repeat zero a = []
  repeat (suc n) a = a ∷ repeat n a

  pub length-repeat : (n : ℕ) (a : A) → length (repeat n a) ≡ n
  unfolding repeat
  length-repeat zero a = refl
  length-repeat (suc n) a = ap suc (length-repeat n a)
