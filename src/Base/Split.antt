-- ===== src/Base/Split.antt =====
-- What the program uses of Go's `strings` to cut a text at a character.
use Prim.Native.Nat.{ℕ}
use Prim.Native.Char.{Char, code}
use Prim.Native.String.{String, [], ◌∷◌}
use mathlib.Core.Bool.{Bool, false, ◌||◌}
use mathlib.Core.List.{List}
use mathlib.Core.Option.{Option, none, some}
use vault_transit_unseal_ope.Base.Tests.{nat_eq, if◌then◌else◌}

-- A character in front of the first part
onto_part : Char → List String → List String
onto_part c List.[] = List.◌∷◌ (c ∷ []) List.[]
onto_part c (List.◌∷◌ l ls) = List.◌∷◌ (c ∷ l) ls

-- `strings.Split(s, sep)`, for a text of one character
unfoldable pub split : ℕ → String → List String
unfolding onto_part
split sep [] = List.◌∷◌ "" List.[]
split sep (c ∷ s) =
    let rest = split sep s in if nat_eq (code c) sep then List.◌∷◌ "" rest else onto_part c rest

before : Char → Option (String × String) → Option (String × String)
before c none = none
before c (some (a, b)) = some (c ∷ a, b)

-- The texts before and after the first such character; none without one
unfoldable pub cut : ℕ → String → Option (String × String)
unfolding before
cut sep [] = none
cut sep (c ∷ s) =
    let rest = before c (cut sep s) in if nat_eq (code c) sep then some ("", s) else rest

-- `strings.Contains(s, sep)`, for a text of one character
unfoldable pub holds_char : ℕ → String → Bool
holds_char sep [] = false
holds_char sep (c ∷ s) = nat_eq (code c) sep || holds_char sep s

unfoldable pub trim_char_left : ℕ → String → String
trim_char_left sep [] = []
trim_char_left sep (c ∷ s) =
    let rest = trim_char_left sep s in if nat_eq (code c) sep then rest else c ∷ s

prepend : ℕ → Char → String → String
prepend sep c [] = if nat_eq (code c) sep then [] else c ∷ []
prepend sep c (d ∷ s) = c ∷ d ∷ s

unfoldable pub trim_char_right : ℕ → String → String
unfolding prepend
trim_char_right sep [] = []
trim_char_right sep (c ∷ s) = prepend sep c (trim_char_right sep s)

-- `strings.Trim(s, sep)`, for a text of one character
unfoldable pub trim_char : ℕ → String → String
unfolding trim_char_left trim_char_right
trim_char sep s = trim_char_left sep (trim_char_right sep s)
