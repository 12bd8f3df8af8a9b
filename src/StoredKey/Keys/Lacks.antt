-- ===== src/StoredKey/Keys/Lacks.antt =====
-- Texts without a given character.
use vault_transit_unseal_ope.Base.{
  [], ◌∷◌, All, List, String, false, if_cases, nat_eq, ℕ, ◌&&◌, ◌≡◌,
}
use vault_transit_unseal_ope.Base.Text.{is_empty, is_space, trim_left, trim_right, trim_space}
use vault_transit_unseal_ope.StoredKey.Keys.{
  carriage_return, drop_returns, newline, onto_first, split_lines,
}
use Prim.Native.Char.{Char, code}
use Prim.Native.String.{[], ◌∷◌}

-- No character of the text has that code.
abbrev pub Lacks : ℕ → String → Type 0
Lacks n [] = Unit {0}
Lacks n (c ∷ s) = (nat_eq (code c) n ≡ false) × Lacks n s

pub Lacks-drop_returns : (n : ℕ) (s : String) → Lacks n s → Lacks n (drop_returns s)
unfolding drop_returns
Lacks-drop_returns n [] h = tt
Lacks-drop_returns n (c ∷ s) h =
    if_cases (Lacks n) (nat_eq (code c) carriage_return) (drop_returns s) (c ∷ drop_returns s)
      (λ _. Lacks-drop_returns n s h.1) (λ _. (h.0, Lacks-drop_returns n s h.1))

pub drop_returns-Lacks : (s : String) → Lacks carriage_return (drop_returns s)
unfolding drop_returns
drop_returns-Lacks [] = tt
drop_returns-Lacks (c ∷ s) =
    if_cases (Lacks carriage_return) (nat_eq (code c) carriage_return) (drop_returns s)
      (c ∷ drop_returns s) (λ _. drop_returns-Lacks s) (λ t. (t, drop_returns-Lacks s))

Lacks-trim_left : (n : ℕ) (s : String) → Lacks n s → Lacks n (trim_left s)
unfolding trim_left
Lacks-trim_left n [] h = tt
Lacks-trim_left n (c ∷ s) h =
    if_cases (Lacks n) (is_space (code c)) (trim_left s) (c ∷ s) (λ _. Lacks-trim_left n s h.1)
      (λ _. h)

Lacks-trim_right : (n : ℕ) (s : String) → Lacks n s → Lacks n (trim_right s)
unfolding trim_right
Lacks-trim_right n [] h = tt
Lacks-trim_right n (c ∷ s) h =
    if_cases (Lacks n) (is_empty (trim_right s) && is_space (code c)) [] (c ∷ trim_right s)
      (λ _. tt) (λ _. (h.0, Lacks-trim_right n s h.1))

pub Lacks-trim_space : (n : ℕ) (s : String) → Lacks n s → Lacks n (trim_space s)
unfolding trim_space
Lacks-trim_space n s h = Lacks-trim_left n (trim_right s) (Lacks-trim_right n s h)

onto_first-Lacks :
    (n : ℕ) (c : Char) (ls : List String)
    → nat_eq (code c) n ≡ false
    → All (Lacks n) ls
    → All (Lacks n) (onto_first c ls)
unfolding onto_first
onto_first-Lacks n c [] e h = ((e, tt), tt)
onto_first-Lacks n c (l ∷ ls) e h = ((e, h.0), h.1)

pub split_lines-Lacks : (s : String) → All (Lacks newline) (split_lines s)
unfolding split_lines
split_lines-Lacks [] = (tt, tt)
split_lines-Lacks (c ∷ s) =
    if_cases (All (Lacks newline)) (nat_eq (code c) newline) ("" ∷ split_lines s)
      (onto_first c (split_lines s)) (λ _. (tt, split_lines-Lacks s))
      (λ t. onto_first-Lacks newline c (split_lines s) t (split_lines-Lacks s))
