-- ===== src/Mount/Remount.antt =====
-- internal/mount/mount.go: the options of the remount of `remountBind`.
use t_cloud_public_csi_drive.Common.{
  ◌≡◌, refl, Bool, true, false, Bool-cases, inl, inr, ◌⊎◌, String, List, [], ◌∷◌, ◌++◌, Memᴰ, ◌||◌,
  arith, eq_iff,
}
use t_cloud_public_csi_drive.Mount.{contains, is_dropped, take_over, restate, remount_options}

pub contains-append :
    (xs ys : List String) (o : String) → contains (xs ++ ys) o ≡ (contains xs o || contains ys o)
unfolding contains
contains-append [] ys o = refl
contains-append (x ∷ xs) ys o = ground (arith, contains-append xs ys o)

contains-Memᴰ : (xs : List String) (o : String) → Memᴰ o xs → contains xs o ≡ true
unfolding contains
contains-Memᴰ [] o m = elim m [ ]
contains-Memᴰ (x ∷ xs) o (Memᴰ.head e) = ground (arith, eq_iff x o)
contains-Memᴰ (x ∷ xs) o (Memᴰ.tail m) = ground (arith, contains-Memᴰ xs o m)

-- What is listed stays listed.
restate-contains :
    (read_only : Bool) (listed rest : List String) (o : String)
    → contains listed o ≡ true
    → contains (restate read_only listed rest) o ≡ true
unfolding restate
restate-contains read_only listed [] o h = h
restate-contains read_only listed (x ∷ rest) o h =
    elim (Bool-cases (is_dropped read_only x || contains listed x)) [
      | inl t ↦ rw t (restate-contains read_only listed rest o h)
      | inr f ↦ rw f (
          restate-contains read_only (listed ++ x ∷ []) rest o
            (ground (arith, contains-append listed (x ∷ []) o)))
    ]

or_true : (a b : Bool) → b ≡ true → (a || b) ≡ true
or_true a b e = ground arith

or_false : (a b : Bool) → a ≡ false → b ≡ false → (a || b) ≡ false
or_false a b e f = ground arith

restate-takes :
    (read_only : Bool) (listed rest : List String) (o : String)
    → is_dropped read_only o ≡ false
    → Memᴰ o rest
    → contains (restate read_only listed rest) o ≡ true
unfolding restate
restate-takes read_only listed [] o kept m = elim m [ ]
restate-takes read_only listed (x ∷ rest) o kept (Memᴰ.head e) =
    restate-contains read_only (take_over read_only listed x) rest o
      (starts (Bool-cases (contains listed x)))
  where
    starts :
        (contains listed x ≡ true) ⊎ (contains listed x ≡ false)
        → contains (take_over read_only listed x) o ≡ true
    starts (inl t) = rw (or_true (is_dropped read_only x) (contains listed x) t) (rw e t)
    starts (inr f) =
        rw (or_false (is_dropped read_only x) (contains listed x) (rw e at kept) f)
          (rw (contains-append listed (x ∷ []) o) (ground (arith, eq_iff x o)))
restate-takes read_only listed (x ∷ rest) o kept (Memᴰ.tail m) =
    restate-takes read_only (take_over read_only listed x) rest o kept m

restate-drops :
    (read_only : Bool) (listed rest : List String) (o : String)
    → is_dropped read_only o ≡ true
    → contains listed o ≡ false
    → contains (restate read_only listed rest) o ≡ false
unfolding restate
restate-drops read_only listed [] o dropped h = h
restate-drops read_only listed (x ∷ rest) o dropped h =
    restate-drops read_only (take_over read_only listed x) rest o dropped
      (still (Bool-cases (is_dropped read_only x || contains listed x)))
  where
    differs : is_dropped read_only x ≡ false → x ≡ o → ⊥
    differs e same = absurd (ground (arith, rw same at e))

    still :
        (is_dropped read_only x || contains listed x ≡ true)
          ⊎ (is_dropped read_only x || contains listed x ≡ false)
        → contains (take_over read_only listed x) o ≡ false
    still (inl t) = rw t h
    still (inr f) =
        rw f (rw (contains-append listed (x ∷ []) o) (ground (arith, eq_iff x o, differs)))

-- What is in neither list does not come in.
pub restate-absent :
    (read_only : Bool) (listed rest : List String) (o : String)
    → contains listed o ≡ false
    → contains rest o ≡ false
    → contains (restate read_only listed rest) o ≡ false
unfolding restate
restate-absent read_only listed [] o h k = h
restate-absent read_only listed (x ∷ rest) o h k =
    restate-absent read_only (take_over read_only listed x) rest o
      (still (Bool-cases (is_dropped read_only x || contains listed x)))
      (ground (arith, contains-append (x ∷ []) rest o))
  where
    still :
        (is_dropped read_only x || contains listed x ≡ true)
          ⊎ (is_dropped read_only x || contains listed x ≡ false)
        → contains (take_over read_only listed x) o ≡ false
    still (inl t) = rw t h
    still (inr f) =
        rw f
          (rw (contains-append listed (x ∷ []) o) (ground (arith, contains-append (x ∷ []) rest o)))

-- The remount of a bind restates each option of the source and each option of the caller, save `bind`,
-- `rbind` and `remount` themselves and an `rw` that the source's `ro` forbids.
pub remount_options-contains :
    (source options : List String) (o : String)
    → Memᴰ o (source ++ options)
    → is_dropped (contains source "ro") o ≡ false
    → contains (remount_options source options) o ≡ true
unfolding remount_options
remount_options-contains source options o m kept =
    restate-takes (contains source "ro") ("bind" ∷ "remount" ∷ []) (source ++ options) o kept m

pub Memᴰ-append : (xs ys : List String) (o : String) → Memᴰ o xs → Memᴰ o (xs ++ ys)
Memᴰ-append [] ys o m = elim m [ ]
Memᴰ-append (x ∷ xs) ys o (Memᴰ.head e) = Memᴰ.head e
Memᴰ-append (x ∷ xs) ys o (Memᴰ.tail m) = Memᴰ.tail (Memᴰ-append xs ys o m)

-- A bind of a read-only source is remounted read-only and never with `rw`, whatever the caller asks for.
pub remount_options_read_only :
    (source options : List String)
    → Memᴰ "ro" source
    → (contains (remount_options source options) "ro" ≡ true)
      × (contains (remount_options source options) "rw" ≡ false)
unfolding remount_options
remount_options_read_only source options m = (
  remount_options-contains source options "ro" (Memᴰ-append source options "ro" m) refl,
  restate-drops (contains source "ro") ("bind" ∷ "remount" ∷ []) (source ++ options) "rw"
      (contains-Memᴰ source "ro" m) refl,
)
