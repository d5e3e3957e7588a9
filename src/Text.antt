-- ===== src/Text.antt =====
-- The functions of the language's `strings` package that the driver calls. A text is a sequence of
-- code points: the texts of a request are UTF-8, and none of these functions cuts a code point.
use Prim.Native.Char.{Char, code}
use Prim.Native.String.{char_at}
use t_cloud_public_csi_drive.Common.{
  zero, suc, ℕ, ◌-◌, ◌≡◌, refl, Bool, Option, none, some, true, false, ◌&&◌, ◌||◌, String, leb,
  ◌==◌, if◌then◌else◌, str_eq,
}

-- `unicode.IsSpace`
unfoldable pub is_space : ℕ → Bool
is_space c =
    (leb 9 c && leb c 13)
    || (c == 32)
    || (c == 0x85)
    || (c == 0xa0)
    || (c == 0x1680)
    || (leb 0x2000 c && leb c 0x200a)
    || (c == 0x2028)
    || (c == 0x2029)
    || (c == 0x202f)
    || (c == 0x205f)
    || (c == 0x3000)

abbrev is_empty : String → Bool
is_empty String.[] = true
is_empty (String.◌∷◌ _ _) = false

trim_left : String → String
trim_left String.[] = String.[]
trim_left (String.◌∷◌ c s) =
    let rest = trim_left s in if is_space (code c) then rest else String.◌∷◌ c s

trim_right : String → String
trim_right String.[] = String.[]
trim_right (String.◌∷◌ c s) =
    let rest = trim_right s in
    if is_empty rest && is_space (code c) then String.[] else String.◌∷◌ c rest

-- `strings.TrimSpace`
unfoldable pub trim_space : String → String
unfolding trim_left trim_right is_space
trim_space s = trim_right (trim_left s)

-- `strings.TrimSpace(s) == ""`
unfoldable pub is_blank : String → Bool
unfolding trim_space
is_blank s = str_eq (trim_space s) ""

-- `strings.ToLower`, as far as it gives letters of ASCII: from those, from the dotted capital I and
-- from the sign for kelvin.
lower_char : Char → Char
lower_char c =
    if leb b'A' (code c) && leb (code c) b'Z'
    then char_at "abcdefghijklmnopqrstuvwxyz" (code c - b'A')
    else if code c == 0x130
    then char_at "i" 0
    else if code c == 0x212a
    then char_at "k" 0
    else c

unfoldable pub to_lower : String → String
unfolding lower_char
to_lower String.[] = String.[]
to_lower (String.◌∷◌ c s) = String.◌∷◌ (lower_char c) (to_lower s)

-- `strings.ToUpper`, as far as it gives letters of ASCII: from those, from the dotless i and from the
-- long s.
upper_char : Char → Char
upper_char c =
    if leb b'a' (code c) && leb (code c) b'z'
    then char_at "ABCDEFGHIJKLMNOPQRSTUVWXYZ" (code c - b'a')
    else if code c == 0x131
    then char_at "I" 0
    else if code c == 0x17f
    then char_at "S" 0
    else c

unfoldable pub to_upper : String → String
unfolding upper_char
to_upper String.[] = String.[]
to_upper (String.◌∷◌ c s) = String.◌∷◌ (upper_char c) (to_upper s)

-- `strings.CutPrefix(s, prefix)`: what follows the prefix, if it is there.
unfoldable pub cut_prefix : String → String → Option String
cut_prefix s String.[] = some s
cut_prefix String.[] (String.◌∷◌ d p) = none
cut_prefix (String.◌∷◌ c s) (String.◌∷◌ d p) =
    let rest = cut_prefix s p in if code c == code d then rest else none

trim_space_test : trim_space "  a b\n" ≡ "a b"
unfolding trim_space
trim_space_test = refl

is_blank_test : is_blank " \t " ≡ true
unfolding is_blank
is_blank_test = refl

to_lower_test : to_lower "ExT4" ≡ "ext4"
unfolding to_lower
to_lower_test = refl

-- `len(s)` and `s[:n]`, for a text of one byte for each character.
unfoldable pub text_length : String → ℕ
text_length String.[] = 0
text_length (String.◌∷◌ c s) = suc (text_length s)

unfoldable pub text_take : ℕ → String → String
text_take zero s = String.[]
text_take (suc n) String.[] = String.[]
text_take (suc n) (String.◌∷◌ c s) = String.◌∷◌ c (text_take n s)

-- `strings.Contains(s, part)`
unfoldable pub text_contains : String → String → Bool
unfolding cut_prefix
text_contains String.[] part = is_empty part
text_contains (String.◌∷◌ c s) part =
    let rest = text_contains s part in
    elim (cut_prefix (String.◌∷◌ c s) part) [ some _ ↦ true | none ↦ rest ]

text_contains_test : text_contains "umount: /x: not mounted." "not mounted" ≡ true
unfolding text_contains
text_contains_test = refl
