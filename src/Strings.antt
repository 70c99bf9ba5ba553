-- ===== src/Strings.antt =====
-- Go strings as lists of bytes, with the functions of Go's package strings that the program calls.
-- TrimSpace knows every space rune of Unicode in its UTF-8 form. ToLower and EqualFold fold the
-- ASCII letters: the program compares with ASCII words that no other letter folds to.
pub mod Laws
pub mod Trim
use Prim.Native.Char.{code}
use Prim.Native.String.{String}
use mathlib.Core.List.{reverse}
use anti_river_ten_demo.Prelude.{
  ℕ, suc, zero, ◌+◌, ◌-◌, ◌/◌, ◌%◌, Bool, true, false, ◌&&◌, ◌||◌, List, [], ◌∷◌, ◌++◌, map, ltb,
  leb, ◌==◌, if◌then◌else◌, drop, length,
}

abbrev pub Bytes : Type 0
Bytes = List ℕ

-- The UTF-8 bytes of one code point.
abbrev encode : ℕ → Bytes
encode c =
    if ltb c 0x80
    then c ∷ []
    else if ltb c 0x800
    then (0xC0 + c / 0x40) ∷ (0x80 + c % 0x40) ∷ []
    else if ltb c 0x10000
    then (0xE0 + c / 0x1000) ∷ (0x80 + c / 0x40 % 0x40) ∷ (0x80 + c % 0x40) ∷ []
    else (0xF0 + c / 0x40000)
      ∷ (0x80 + c / 0x1000 % 0x40)
      ∷ (0x80 + c / 0x40 % 0x40)
      ∷ (0x80 + c % 0x40)
      ∷ []

-- The bytes of a literal of the source.
unfoldable pub text : String → Bytes
text String.[] = []
text (String.◌∷◌ c s) = encode (code c) ++ text s

-- s == t
unfoldable pub str_eq : Bytes → Bytes → Bool
str_eq [] [] = true
str_eq (a ∷ s) (b ∷ t) = a == b && str_eq s t
str_eq _ _ = false

-- s == ""
abbrev pub is_empty : Bytes → Bool
is_empty [] = true
is_empty (c ∷ s) = false

unfoldable pub has_prefix : Bytes → Bytes → Bool
has_prefix s [] = true
has_prefix [] (p ∷ ps) = false
has_prefix (c ∷ s) (p ∷ ps) = c == p && has_prefix s ps

unfoldable pub has_suffix : Bytes → Bytes → Bool
unfolding has_prefix
has_suffix s p = has_prefix (reverse s) (reverse p)

-- strings.Contains
unfoldable pub contains : Bytes → Bytes → Bool
unfolding has_prefix
contains [] p = has_prefix [] p
contains (c ∷ s) p = has_prefix (c ∷ s) p || contains s p

unfoldable pub lower_byte : ℕ → ℕ
lower_byte c = if leb b'A' c && leb c b'Z' then c + 32 else c

-- The byte in front of a text that is lowered already. Two letters beyond ASCII have a lower case in
-- ASCII: U+0130 (196 176) becomes i, U+212A (226 132 170) becomes k.
unfoldable pub lower_onto : ℕ → Bytes → Bytes
unfolding lower_byte
lower_onto c [] = lower_byte c ∷ []
lower_onto c (d ∷ []) = if c == 196 && d == 176 then b'i' ∷ [] else lower_byte c ∷ d ∷ []
lower_onto c (d ∷ e ∷ s) =
    if c == 196 && d == 176
    then b'i' ∷ e ∷ s
    else if c == 226 && d == 132 && e == 170
    then b'k' ∷ s
    else lower_byte c ∷ d ∷ e ∷ s

-- strings.ToLower, for tests against texts in ASCII: other letters beyond ASCII stay as they are,
-- and their lower case is beyond ASCII too.
unfoldable pub to_lower : Bytes → Bytes
unfolding lower_onto
to_lower [] = []
to_lower (c ∷ s) = lower_onto c (to_lower s)

-- strings.EqualFold, where one side is in ASCII and has no k and no s: no letter beyond ASCII folds
-- to any other of ASCII.
unfoldable pub equal_fold : Bytes → Bytes → Bool
unfolding str_eq lower_byte
equal_fold s t = str_eq (map lower_byte s) (map lower_byte t)

unfoldable pub is_ascii_space : ℕ → Bool
is_ascii_space c = leb 9 c && leb c 13 || c == b' '

-- U+0085 and U+00A0.
abbrev is_space_pair : ℕ → ℕ → Bool
is_space_pair a b = a == 0xC2 && (b == 0x85 || b == 0xA0)

-- U+1680, U+2000 to U+200A, U+2028, U+2029, U+202F, U+205F and U+3000.
abbrev is_space_triple : ℕ → ℕ → ℕ → Bool
is_space_triple a b c =
    a == 0xE1 && b == 0x9A && c == 0x80
    || a == 0xE2 && b == 0x80 && (leb 0x80 c && leb c 0x8A || c == 0xA8 || c == 0xA9 || c == 0xAF)
    || a == 0xE2 && b == 0x81 && c == 0x9F
    || a == 0xE3 && b == 0x80 && c == 0x80

-- The length of the space rune that a text begins with, and 0 if it begins with none.
unfoldable pub space_width : Bytes → ℕ
unfolding is_ascii_space
space_width [] = 0
space_width (a ∷ []) = if is_ascii_space a then 1 else 0
space_width (a ∷ b ∷ []) = if is_ascii_space a then 1 else if is_space_pair a b then 2 else 0
space_width (a ∷ b ∷ c ∷ s) =
    if is_ascii_space a
    then 1
    else if is_space_pair a b
    then 2
    else if is_space_triple a b c
    then 3
    else 0

-- The same for the rune that a text ends with: the text is given backwards.
unfoldable pub space_width_back : Bytes → ℕ
unfolding is_ascii_space
space_width_back [] = 0
space_width_back (a ∷ []) = if is_ascii_space a then 1 else 0
space_width_back (b ∷ a ∷ []) = if is_ascii_space b then 1 else if is_space_pair a b then 2 else 0
space_width_back (c ∷ b ∷ a ∷ s) =
    if is_ascii_space c
    then 1
    else if is_space_pair b c
    then 2
    else if is_space_triple a b c
    then 3
    else 0

-- Drops leading runes as long as `width` finds a space; `skip` bytes of the current rune are left.
unfoldable pub drop_spaces : (Bytes → ℕ) → ℕ → Bytes → Bytes
drop_spaces width skip [] = []
drop_spaces width (suc skip) (c ∷ s) = drop_spaces width skip s
drop_spaces width zero (c ∷ s) =
    let rest = drop_spaces width (width (c ∷ s) - 1) s in if width (c ∷ s) == 0 then c ∷ s else rest

-- strings.TrimSpace
unfoldable pub trim_space : Bytes → Bytes
unfolding drop_spaces space_width space_width_back
trim_space s = reverse (drop_spaces space_width_back 0 (reverse (drop_spaces space_width 0 s)))

-- The loop of strings.Split by one byte: the parts behind the part that is being read.
split_from : ℕ → Bytes → Bytes → List Bytes
split_from sep cur [] = reverse cur ∷ []
split_from sep cur (c ∷ s) =
    let closed = reverse cur ∷ split_from sep [] s in
    let longer = split_from sep (c ∷ cur) s in if c == sep then closed else longer

unfoldable pub split : Bytes → ℕ → List Bytes
unfolding split_from
split s sep = split_from sep [] s

unfoldable pub join : List Bytes → Bytes → Bytes
join [] sep = []
join (p ∷ []) sep = p
join (p ∷ q ∷ ps) sep = p ++ sep ++ join (q ∷ ps) sep

-- s[len(prefix):] and s[:len(s)-len(suffix)]
unfoldable pub cut_prefix : Bytes → Bytes → Bytes
cut_prefix s p = drop (length p) s

unfoldable pub cut_suffix : Bytes → Bytes → Bytes
cut_suffix s p = reverse (drop (length p) (reverse s))

-- The loop of filepath.Ext from the end of the path; `acc` is what was passed.
unfoldable pub ext_back : Bytes → Bytes → Bytes
ext_back [] acc = []
ext_back (c ∷ s) acc =
    let rest = ext_back s (c ∷ acc) in if c == b'/' then [] else if c == b'.' then c ∷ acc else rest

-- filepath.Ext
unfoldable pub ext : Bytes → Bytes
unfolding ext_back
ext s = ext_back (reverse s) []
