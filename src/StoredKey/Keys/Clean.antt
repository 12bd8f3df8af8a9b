-- ===== src/StoredKey/Keys/Clean.antt =====
-- What the shares look like, whatever the Secret holds.
use vault_transit_unseal_ope.Base.{All, List, String, [], false, if_cases, ◌==◌, ◌∷◌, ◌≡◌}
use vault_transit_unseal_ope.Base.Text.{trim_space}
use vault_transit_unseal_ope.StoredKey.Keys.{
  carriage_return, collect, drop_returns, newline, parse_keys, split_lines,
}
use vault_transit_unseal_ope.StoredKey.Keys.Lacks.{
  Lacks, Lacks-drop_returns, Lacks-trim_space, drop_returns-Lacks, split_lines-Lacks,
}

-- A share: not empty, on one line, and without a carriage return.
pub record IsShare (k : String) : Type 0 where
  pub has_text : (k == "") ≡ false
  pub has_no_newline : Lacks newline k
  pub has_no_return : Lacks carriage_return k

collect-IsShare : (ls : List String) → All (Lacks newline) ls → All IsShare (collect ls)
unfolding collect
collect-IsShare [] h = tt
collect-IsShare (l ∷ ls) h =
    let key = trim_space (drop_returns l) in
    if_cases (All IsShare) (key == "") (collect ls) (key ∷ collect ls) (λ _. collect-IsShare ls h.1)
      λ t. (
        record {
          has_text = t;
          has_no_newline =
              Lacks-trim_space newline (drop_returns l) (Lacks-drop_returns newline l h.0);
          has_no_return = Lacks-trim_space carriage_return (drop_returns l) (drop_returns-Lacks l);
        },
        collect-IsShare ls h.1,
      )

-- Whatever the Secret holds, no share is empty, runs over a line or has a carriage return in it.
pub parse_keys-IsShare : (raw : String) → All IsShare (parse_keys raw)
unfolding parse_keys
parse_keys-IsShare raw = collect-IsShare (split_lines raw) (split_lines-Lacks raw)
