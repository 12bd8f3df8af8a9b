-- ===== src/StoredKey/Keys.antt =====
-- pkg/storedkey/keys.go: `ParseKeys`.
pub mod Lacks
pub mod Clean
pub mod Written
use vault_transit_unseal_ope.Base.{List, String, [], if◌then◌else◌, nat_eq, ℕ, ◌==◌, ◌∷◌}
use vault_transit_unseal_ope.Base.Text.{trim_space}
use Prim.Native.Char.{Char, code}
use Prim.Native.String.{[], ◌∷◌}

abbrev pub newline : ℕ
newline = 10

abbrev pub carriage_return : ℕ
carriage_return = 13

-- A character in front of the first line
unfoldable pub onto_first : Char → List String → List String
onto_first c [] = (c ∷ []) ∷ []
onto_first c (l ∷ ls) = (c ∷ l) ∷ ls

-- `strings.Split(s, "\n")`, which has at least one line
unfoldable pub split_lines : String → List String
unfolding onto_first
split_lines [] = "" ∷ []
split_lines (c ∷ s) =
    let rest = split_lines s in if nat_eq (code c) newline then "" ∷ rest else onto_first c rest

-- `strings.ReplaceAll(s, "\r", "")`
unfoldable pub drop_returns : String → String
drop_returns [] = []
drop_returns (c ∷ s) =
    let rest = drop_returns s in if nat_eq (code c) carriage_return then rest else c ∷ rest

unfoldable pub collect : List String → List String
collect [] = []
collect (l ∷ ls) =
    let key = trim_space (drop_returns l) in
    let rest = collect ls in if key == "" then rest else key ∷ rest

-- `ParseKeys`
unfoldable pub parse_keys : String → List String
unfolding split_lines collect
parse_keys raw = collect (split_lines raw)
