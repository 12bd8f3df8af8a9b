-- ===== src/Tests.antt =====
-- Runs of the parts that need no cluster.
use vault_transit_unseal_ope.Base.{All, [], refl, true, ◌∷◌, ◌≡◌}
use vault_transit_unseal_ope.Base.Text.{trim_space}
use vault_transit_unseal_ope.StoredKey.Keys.{parse_keys}
use vault_transit_unseal_ope.StoredKey.Keys.Clean.{IsShare, parse_keys-IsShare}
use vault_transit_unseal_ope.StoredKey.Keys.Written.{IsTrimmed, parse_keys-written, written}

parse_keys-IsShare_example : All IsShare (parse_keys " one \r\n\n two")
parse_keys-IsShare_example = parse_keys-IsShare " one \r\n\n two"

one-IsTrimmed : IsTrimmed "one"
unfolding trim_space
one-IsTrimmed = record {
  is_share = record {
    has_text = refl;
    has_no_newline = (refl, (refl, (refl, tt)));
    has_no_return = (refl, (refl, (refl, tt)));
  };
  is_trimmed = refl;
}

parse_keys-written_example : parse_keys (written true ("one" ∷ "one" ∷ [])) ≡ "one" ∷ "one" ∷ []
parse_keys-written_example =
    parse_keys-written true ("one" ∷ "one" ∷ []) (one-IsTrimmed, (one-IsTrimmed, tt))
