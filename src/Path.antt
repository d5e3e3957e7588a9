-- ===== src/Path.antt =====
-- `filepath.Clean`, by the components of a slash-separated path.
pub mod Names
use Prim.Native.Char.{Char, code}
use Prim.Native.String.{◌++◌ as str_append}
use t_cloud_public_csi_drive.Common.{
  ◌≡◌, refl, Bool, true, false, ◌||◌, String, List, [], ◌∷◌, ◌==◌, if◌then◌else◌, str_eq,
}

-- The text before the first slash, and what follows that slash if there is one.
abbrev pub split_head : Char → List String → List String
split_head c [] = String.◌∷◌ c String.[] ∷ []
split_head c (s ∷ ss) = String.◌∷◌ c s ∷ ss

-- `strings.Split(path, "/")`
unfoldable pub components : String → List String
components String.[] = "" ∷ []
components (String.◌∷◌ c s) =
    let rest = components s in if code c == b'/' then "" ∷ rest else split_head c rest

-- `strings.Join(names, "/")`
unfoldable pub join_path : List String → String
join_path [] = ""
join_path (n ∷ []) = n
join_path (n ∷ m ∷ rest) = str_append n (str_append "/" (join_path (m ∷ rest)))

-- `filepath.IsAbs(path)`
unfoldable pub is_abs : String → Bool
is_abs String.[] = false
is_abs (String.◌∷◌ c _) = code c == b'/'

-- `..` drops the last name that was kept, unless there is none that can be dropped: at the root it
-- vanishes, and in a relative path it stays.
abbrev pub step_up : Bool → List String → List String
step_up rooted [] = if rooted then [] else ".." ∷ []
step_up rooted (n ∷ kept) = if str_eq n ".." then ".." ∷ n ∷ kept else kept

-- What one name makes of the names that stay.
abbrev pub clean_name : Bool → List String → String → List String
clean_name rooted kept n =
    if str_eq n "" || str_eq n "."
    then kept
    else if str_eq n ".."
    then step_up rooted kept
    else n ∷ kept

-- The names that stay, last first.
unfoldable pub clean_names : Bool → List String → List String → List String
clean_names rooted kept [] = kept
clean_names rooted kept (n ∷ names) = clean_names rooted (clean_name rooted kept n) names

unfoldable pub reversed : List String → List String → List String
reversed acc [] = acc
reversed acc (n ∷ names) = reversed (n ∷ acc) names

abbrev pub or_dot : String → String
or_dot String.[] = "."
or_dot (String.◌∷◌ c s) = String.◌∷◌ c s

-- `filepath.Clean(path)`
unfoldable pub clean : String → String
unfolding components join_path is_abs clean_names reversed
clean path =
    let names = join_path (reversed [] (clean_names (is_abs path) [] (components path))) in
    if is_abs path then str_append "/" names else or_dot names

clean_test : clean "/dev//a/./b/../c/" ≡ "/dev/a/c"
unfolding clean
clean_test = refl

clean_up_test : clean "a/../../b" ≡ "../b"
unfolding clean
clean_up_test = refl

clean_empty_test : clean "" ≡ "."
unfolding clean
clean_empty_test = refl

-- The names of the clean form of an absolute path.
unfoldable pub clean_components : String → List String
unfolding clean_names components reversed
clean_components path = reversed [] (clean_names true [] (components path))

-- What is left of two paths without the names that they begin with together.
unfoldable pub without_common : List String → List String → List String × List String
without_common [] target = ([], target)
without_common (b ∷ base) [] = (b ∷ base, [])
without_common (b ∷ base) (t ∷ target) =
    let rest = without_common base target in if str_eq b t then rest else (b ∷ base, t ∷ target)

abbrev rel_names : List String × List String → List String
rel_names ([], target) = target
rel_names (b ∷ base, target) = ".." ∷ rel_names (base, target)

-- `filepath.Rel(base, target)`, for two absolute paths.
unfoldable pub rel : String → String → String
unfolding without_common clean_components join_path
rel base target =
    or_dot
      (join_path (rel_names (without_common (clean_components base) (clean_components target))))

-- `filepath.Join(dir, name)`, for a directory that is not empty.
unfoldable pub join : String → String → String
unfolding clean
join dir name = clean (str_append dir (str_append "/" name))

abbrev all_but_last : List String → List String
all_but_last [] = []
all_but_last (n ∷ []) = []
all_but_last (n ∷ m ∷ rest) = n ∷ all_but_last (m ∷ rest)

abbrev up_to_slash : List String → String
up_to_slash [] = ""
up_to_slash (n ∷ rest) = str_append (join_path (n ∷ rest)) "/"

-- `filepath.Dir(path)`
unfoldable pub dir : String → String
unfolding clean components join_path
dir path = clean (up_to_slash (all_but_last (components path)))

dir_test : dir "/var/lib/x" ≡ "/var/lib"
unfolding dir
dir_test = refl

dir_root_test : dir "/x" ≡ "/"
unfolding dir
dir_root_test = refl

rel_test : rel "/dev" "/etc/x" ≡ "../etc/x"
unfolding rel
rel_test = refl

join_test : join "/dev/disk/by-id" "virtio-a" ≡ "/dev/disk/by-id/virtio-a"
unfolding join
join_test = refl
