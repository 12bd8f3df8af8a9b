-- ===== src/Base/Text.antt =====
-- What the program uses of Go's `strings` package, over texts as lists of code points.
use Prim.Native.Nat.{ℕ, ◌+◌}
use Prim.Native.Char.{Char, code}
use Prim.Native.String.{String, [], ◌∷◌}
use mathlib.Core.Bool.{Bool, true, false, ◌||◌, ◌&&◌}
use text.Mathlib.Text.{starts_with}
use vault_transit_unseal_ope.Base.Tests.{leb, nat_eq, if◌then◌else◌}

-- `unicode.IsSpace`
unfoldable pub is_space : ℕ → Bool
is_space c =
    (leb 9 c && leb c 13)
    || nat_eq c 32
    || nat_eq c 0x85
    || nat_eq c 0xA0
    || nat_eq c 0x1680
    || (leb 0x2000 c && leb c 0x200a)
    || nat_eq c 0x2028
    || nat_eq c 0x2029
    || nat_eq c 0x202f
    || nat_eq c 0x205f
    || nat_eq c 0x3000

unfoldable pub trim_left : String → String
trim_left [] = []
trim_left (c ∷ s) = let rest = trim_left s in if is_space (code c) then rest else c ∷ s

abbrev pub is_empty : String → Bool
is_empty [] = true
is_empty (c ∷ s) = false

-- A character goes when it is a space and nothing is left behind it.
cons_trimmed : Char → String → String
cons_trimmed c rest = if is_empty rest && is_space (code c) then [] else c ∷ rest

unfoldable pub trim_right : String → String
unfolding cons_trimmed
trim_right [] = []
trim_right (c ∷ s) = cons_trimmed c (trim_right s)

-- `strings.TrimSpace`
unfoldable pub trim_space : String → String
unfolding trim_left trim_right is_space
trim_space s = trim_left (trim_right s)

-- `strings.Contains`
unfoldable pub contains : String → String → Bool
contains [] sub = is_empty sub
contains (c ∷ s) sub = starts_with (c ∷ s) sub || contains s sub

-- `unicode.ToLower` on ASCII letters and on the two other characters that it takes to an ASCII letter,
-- which is what a search for an ASCII text can tell
lower_code : ℕ → ℕ
lower_code c =
    if leb 65 c && leb c 90
    then c + 32
    else if nat_eq c 0x212a
    then 107
    else if nat_eq c 0x130
    then 105
    else c

starts_lowered : String → String → Bool
unfolding lower_code
starts_lowered s [] = true
starts_lowered [] (d ∷ sub) = false
starts_lowered (c ∷ s) (d ∷ sub) = nat_eq (lower_code (code c)) (code d) && starts_lowered s sub

-- `strings.Contains(strings.ToLower(s), sub)`, for an ASCII `sub`
unfoldable pub contains_lowered : String → String → Bool
unfolding starts_lowered
contains_lowered [] sub = is_empty sub
contains_lowered (c ∷ s) sub = starts_lowered (c ∷ s) sub || contains_lowered s sub
