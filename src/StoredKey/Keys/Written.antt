-- ===== src/StoredKey/Keys/Written.antt =====
-- The shares that were written to the Secret are the ones that are read.
use vault_transit_unseal_ope.Base.Text.{trim_space}
use vault_transit_unseal_ope.StoredKey.Keys.Clean.{IsShare}
use vault_transit_unseal_ope.Base.{
  ◌∙◌, All, ℕ, [], ◌∷◌, sym, ap, Bool, List, String, false, refl, true, ◌≡◌,
}
use vault_transit_unseal_ope.StoredKey.Keys.{
  carriage_return, collect, drop_returns, parse_keys, newline, onto_first, split_lines,
}
use vault_transit_unseal_ope.StoredKey.Keys.Lacks.{Lacks}
use Prim.Native.String.{[], ◌∷◌}

-- Concatenation, by clauses
abbrev append : String → String → String
append [] t = t
append (c ∷ s) t = c ∷ append s t

-- A file with one share on a line, each line ended as on Unix or as on Windows
abbrev pub line_end : Bool → String
line_end true = "\r\n"
line_end false = "\n"

abbrev pub written : Bool → List String → String
written crlf [] = ""
written crlf (k ∷ ks) = append k (append (line_end crlf) (written crlf ks))

split_lines-append :
    (k rest : String)
    → Lacks newline k
    → split_lines (append k (append "\n" rest)) ≡ k ∷ split_lines rest
unfolding split_lines onto_first
split_lines-append [] rest h = refl
split_lines-append (c ∷ k) rest h = rw h.0 (rw (split_lines-append k rest h.1) refl)

-- The line that is read back for a share
abbrev line_of : Bool → String → String
line_of true k = append k "\r"
line_of false k = k

Lacks-append : (n : ℕ) (k l : String) → Lacks n k → Lacks n l → Lacks n (append k l)
Lacks-append n [] l h g = g
Lacks-append n (c ∷ k) l h g = (h.0, Lacks-append n k l h.1 g)

append_assoc : (k l m : String) → append (append k l) m ≡ append k (append l m)
append_assoc [] l m = refl
append_assoc (c ∷ k) l m = ap (λ (s : String). c ∷ s) (append_assoc k l m)

split_lines-line :
    (crlf : Bool) (k rest : String)
    → Lacks newline k
    → split_lines (append k (append (line_end crlf) rest)) ≡ line_of crlf k ∷ split_lines rest
split_lines-line false k rest h = split_lines-append k rest h
split_lines-line true k rest h =
    ap split_lines (sym (append_assoc k "\r" (append "\n" rest)))
    ∙ split_lines-append (append k "\r") rest (Lacks-append newline k "\r" h (refl, tt))

drop_returns-line :
    (crlf : Bool) (k : String) → Lacks carriage_return k → drop_returns (line_of crlf k) ≡ k
unfolding drop_returns
drop_returns-line true [] h = refl
drop_returns-line false [] h = refl
drop_returns-line true (c ∷ k) h =
    rw h.0 (ap (λ (s : String). c ∷ s) (drop_returns-line true k h.1))
drop_returns-line false (c ∷ k) h =
    rw h.0 (ap (λ (s : String). c ∷ s) (drop_returns-line false k h.1))

-- A share as an administrator writes it: nothing that `ParseKeys` would trim
pub record IsTrimmed (k : String) : Type 0 where
  pub is_share : IsShare k
  pub is_trimmed : trim_space k ≡ k

split_lines-written :
    (crlf : Bool) (ks : List String)
    → All IsTrimmed ks
    → collect (split_lines (written crlf ks)) ≡ ks
unfolding collect split_lines trim_space drop_returns
split_lines-written crlf [] h = refl
split_lines-written crlf (k ∷ ks) h =
    let s = h.0.is_share in
    rw (split_lines-line crlf k (written crlf ks) s.has_no_newline) (
      rw (drop_returns-line crlf k s.has_no_return) (
        rw h.0.is_trimmed
          (rw s.has_text (ap (λ (l : List String). k ∷ l) (split_lines-written crlf ks h.1)))))

-- Shares that are written one on a line are read back unchanged and in order, whether the lines end
-- as on Unix or as on Windows; provided that no share is empty, has a newline or a carriage return
-- in it or spaces around it.
pub parse_keys-written :
    (crlf : Bool) (ks : List String) → All IsTrimmed ks → parse_keys (written crlf ks) ≡ ks
unfolding parse_keys
parse_keys-written crlf ks h = split_lines-written crlf ks h
