-- ===== src/Common/Sort.antt =====
-- `slices.SortFunc` and `strings.Compare`, as an insertion sort and a Boolean order on texts.
use Prim.Native.Char.{code}
use Prim.Native.String.{String}
use mathlib.Core.Path.{◌≡◌, refl, ap₂, subst}
use text.Mathlib.TextEquality.{Char-path}
use mathlib.Core.Bool.{Bool, true, false}
use mathlib.Core.Logic.{◌⊎◌, inl, inr}
use mathlib.Core.Option.{some}
use mathlib.Core.List.{List, [], ◌∷◌}
use native.Mathlib.Omega.{arith}
use t_cloud_public_csi_drive.Common.Tests.{ltb, ◌==◌, if◌then◌else◌, Bool-cases}
use t_cloud_public_csi_drive.Common.Lists.{All, All-map, find}

-- `strings.Compare(s, t) <= 0`: by code points, which is the order of the bytes of UTF-8.
unfoldable pub text_leb : String → String → Bool
text_leb String.[] t = true
text_leb (String.◌∷◌ c s) String.[] = false
text_leb (String.◌∷◌ c s) (String.◌∷◌ d t) =
    let rest = text_leb s t in
    if ltb (code c) (code d) then true else if code c == code d then rest else false

pub text_leb_total : (s t : String) → (text_leb s t ≡ true) ⊎ (text_leb t s ≡ true)
unfolding text_leb
text_leb_total String.[] t = inl refl
text_leb_total (String.◌∷◌ c s) String.[] = inr refl
text_leb_total (String.◌∷◌ c s) (String.◌∷◌ d t) = ground (arith, text_leb_total s t)

pub text_leb_trans :
    (s t u : String) → text_leb s t ≡ true → text_leb t u ≡ true → text_leb s u ≡ true
unfolding text_leb
text_leb_trans String.[] t u h k = refl
text_leb_trans (String.◌∷◌ c s) String.[] u h k = ground arith
text_leb_trans (String.◌∷◌ c s) (String.◌∷◌ d t) String.[] h k = ground arith
text_leb_trans (String.◌∷◌ c s) (String.◌∷◌ d t) (String.◌∷◌ e u) h k =
    ground (arith, text_leb_trans s t u)

pub text_leb_antisymm : (s t : String) → text_leb s t ≡ true → text_leb t s ≡ true → s ≡ t
unfolding text_leb
text_leb_antisymm String.[] String.[] h k = refl
text_leb_antisymm String.[] (String.◌∷◌ d t) h k = cc
text_leb_antisymm (String.◌∷◌ c s) String.[] h k = cc
text_leb_antisymm (String.◌∷◌ c s) (String.◌∷◌ d t) h k =
    ap₂ String.◌∷◌ (Char-path c d (ground arith))
      (text_leb_antisymm s t (ground arith) (ground arith))

pub text_leb_refl : (s : String) → text_leb s s ≡ true
text_leb_refl s = ground (arith, text_leb_total s s)

module _ {ℓ} {A : Type ℓ} (leq : A → A → Bool) where
  unfoldable pub insert : A → List A → List A
  insert a [] = a ∷ []
  insert a (x ∷ xs) = let rest = insert a xs in if leq a x then a ∷ x ∷ xs else x ∷ rest

  unfoldable pub sort : List A → List A
  unfolding insert
  sort [] = []
  sort (x ∷ xs) = insert x (sort xs)

  -- Each element is at most all that follow it.
  abbrev pub IsSorted : List A → Type ℓ
  IsSorted [] = Unit
  IsSorted (x ∷ xs) = All (λ y. leq x y ≡ true) xs × IsSorted xs

  module _ {κ} (P : A → Type κ) where
    All-insert : (a : A) (xs : List A) → P a → All P xs → All P (insert a xs)
    unfolding insert
    All-insert a [] p h = (p, tt)
    All-insert a (x ∷ xs) p h = elim (Bool-cases (leq a x)) [
      | inl e ↦ rw e (p, h)
      | inr e ↦ rw e (h.0, All-insert a xs p h.1)
    ]

    All-of_insert : (a : A) (xs : List A) → All P (insert a xs) → P a × All P xs
    unfolding insert
    All-of_insert a [] h = h
    All-of_insert a (x ∷ xs) h = elim (Bool-cases (leq a x)) [
      | inl e ↦ rw e at h
      | inr e ↦
          let q : P x × All P (insert a xs) = rw e at h in
          let (pa, rest) = All-of_insert a xs q.1 in (pa, (q.0, rest))
    ]

    -- A sort changes neither what holds of every element …
    pub All-sort : (xs : List A) → All P xs → All P (sort xs)
    unfolding sort
    All-sort [] h = tt
    All-sort (x ∷ xs) h = All-insert x (sort xs) h.0 (All-sort xs h.1)

    -- … nor loses one.
    pub All-of_sort : (xs : List A) → All P (sort xs) → All P xs
    unfolding sort
    All-of_sort [] h = tt
    All-of_sort (x ∷ xs) h = let (p, q) = All-of_insert x (sort xs) h in (p, All-of_sort xs q)

  module _ (total : (x y : A) → (leq x y ≡ true) ⊎ (leq y x ≡ true))
      (trans : (x y z : A) → leq x y ≡ true → leq y z ≡ true → leq x z ≡ true) where
    at_most : (a x : A) → leq a x ≡ false → leq x a ≡ true
    at_most a x e = ground (arith, total a x)

    IsSorted-insert : (a : A) (xs : List A) → IsSorted xs → IsSorted (insert a xs)
    unfolding insert
    IsSorted-insert a [] h = (tt, tt)
    IsSorted-insert a (x ∷ xs) h = elim (Bool-cases (leq a x)) [
      | inl e ↦
          rw e (
            (e, All-map (λ y. leq x y ≡ true) (λ y. leq a y ≡ true) xs (λ y. trans a x y e) h.0),
            h,
          )
      | inr e ↦
          rw e (All-insert (λ y. leq x y ≡ true) a xs (at_most a x e) h.0, IsSorted-insert a xs h.1)
    ]

    pub sort-IsSorted : (xs : List A) → IsSorted (sort xs)
    unfolding sort
    sort-IsSorted [] = tt
    sort-IsSorted (x ∷ xs) = IsSorted-insert x (sort xs) (sort-IsSorted xs)

  -- The first element of a sorted list that passes a test is at most each that passes it.
  pub find-least :
      (p : A → Bool) (xs : List A) {a : A}
      → ((x : A) → leq x x ≡ true)
      → IsSorted xs
      → find p xs ≡ some a
      → All (λ y. p y ≡ true → leq a y ≡ true) xs
  find-least p [] {a} r h e = tt
  find-least p (x ∷ xs) {a} r h e = elim (Bool-cases (p x)) [
    | inl t ↦
        let at_head : x ≡ a = ground arith in
        subst (λ b. All (λ y. p y ≡ true → leq b y ≡ true) (x ∷ xs)) at_head
          (
            (λ _. r x),
            All-map (λ y. leq x y ≡ true) (λ y. p y ≡ true → leq x y ≡ true) xs (λ y l _. l) h.0,
          )
    | inr f ↦ ((λ t. cc), find-least p xs r h.1 (rw f at e))
  ]
