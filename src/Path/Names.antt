-- ===== src/Path/Names.antt =====
-- What the clean form of an absolute path consists of.
use Prim.Native.Char.{Char, code}
use Prim.Native.String.{String, ◌++◌ as str_append}
use Prim.Native.String.append.{nil as append_nil, cons as append_cons}
use text.Mathlib.TextEquality.{Char-path}
use t_cloud_public_csi_drive.Common.{
  ◌≡◌, ◌≢◌, refl, ap₂, Bool, true, false, Bool-cases, inl, inr, ◌||◌, some, List, [], ◌∷◌, All,
  arith, ◌==◌, str_eq, eq_iff,
}
use t_cloud_public_csi_drive.Text.{cut_prefix}
use t_cloud_public_csi_drive.Path.{
  split_head, components, join_path, is_abs, step_up, clean_name, clean_names, reversed, clean,
}

unfoldable pub has_slash : String → Bool
has_slash String.[] = false
has_slash (String.◌∷◌ c s) = (code c == b'/') || has_slash s

-- A name of a file: not empty, not `.` or `..`, and without a slash.
pub record IsName (n : String) : Type 0 where
  pub filled : n ≢ ""
  pub not_here : n ≢ "."
  pub not_up : n ≢ ".."
  pub one : has_slash n ≡ false

IsOne : String → Type 0
IsOne n = has_slash n ≡ false

split_head-IsOne :
    (c : Char) (names : List String)
    → (code c == b'/') ≡ false
    → All IsOne names
    → All IsOne (split_head c names)
unfolding has_slash IsOne
split_head-IsOne c [] e h = (ground arith, tt)
split_head-IsOne c (s ∷ ss) e (h, hs) = (ground arith, hs)

components-IsOne : (path : String) → All IsOne (components path)
unfolding components has_slash IsOne
components-IsOne String.[] = (refl, tt)
components-IsOne (String.◌∷◌ c s) = elim (Bool-cases (code c == b'/')) [
  | inl t ↦ rw t (refl, components-IsOne s)
  | inr f ↦ rw f (split_head-IsOne c (components s) f (components-IsOne s))
]

step_up-IsName : (kept : List String) → All IsName kept → All IsName (step_up true kept)
step_up-IsName [] h = tt
step_up-IsName (n ∷ kept) (h, hs) = elim (Bool-cases (str_eq n "..")) [
  | inl t ↦ absurd (h.not_up ((eq_iff n "..").0 t))
  | inr f ↦ rw f hs
]

clean_name-IsName :
    (kept : List String) (n : String)
    → All IsName kept
    → IsOne n
    → All IsName (clean_name true kept n)
unfolding IsOne
clean_name-IsName kept n h one = elim (Bool-cases (str_eq n "" || str_eq n ".")) [
  | inl t ↦ rw t h
  | inr f ↦ elim (Bool-cases (str_eq n "..")) [
    | inl up ↦ rw f (rw up (step_up-IsName kept h))
    | inr stay ↦ rw f (
        rw stay (
          record {
            filled = ground (arith, eq_iff n "");
            not_here = ground (arith, eq_iff n ".");
            not_up = ground (arith, eq_iff n "..");
            one = one;
          },
          h,
        ))
  ]
]

clean_names-IsName :
    (kept names : List String)
    → All IsName kept
    → All IsOne names
    → All IsName (clean_names true kept names)
unfolding clean_names
clean_names-IsName kept [] h k = h
clean_names-IsName kept (n ∷ names) h (k, ks) =
    clean_names-IsName (clean_name true kept n) names (clean_name-IsName kept n h k) ks

reversed-All :
    (P : String → Type 0) (acc names : List String)
    → All P acc
    → All P names
    → All P (reversed acc names)
unfolding reversed
reversed-All P acc [] h k = h
reversed-All P acc (n ∷ names) h (k, ks) = reversed-All P (n ∷ acc) names (k, h) ks

-- A clean absolute path is its names, each a name of a file, after one slash each.
pub clean_absolute :
    (path : String)
    → is_abs path ≡ true
    → (names : List String) × (clean path ≡ str_append "/" (join_path names)) × All IsName names
unfolding clean
clean_absolute path absolute =
    let names = clean_names true [] (components path) in
    (
      reversed [] names,
      rw absolute refl,
      reversed-All IsName [] names tt
          (clean_names-IsName [] (components path) tt (components-IsOne path)),
    )

-- What follows a prefix that is there.
pub cut_prefix-append : (s p r : String) → cut_prefix s p ≡ some r → s ≡ str_append p r
unfolding cut_prefix
cut_prefix-append s String.[] r e = rw (append_nil r) (ground arith)
cut_prefix-append String.[] (String.◌∷◌ d p) r e = absurd (ground arith)
cut_prefix-append (String.◌∷◌ c s) (String.◌∷◌ d p) r e =
    rw (append_cons d p r)
      (ap₂ String.◌∷◌ (Char-path c d (ground arith)) (cut_prefix-append s p r (ground arith)))
