-- ===== src/Token/Ledger.antt =====
-- pkg/token/ledger.go: the revoke ledger on the admin Secret, and the revocation of one accessor.
pub mod Revoking
pub mod Confirmed
pub mod RoundTrip
pub mod Tracked
use vault_transit_unseal_ope.Base.{
  ℕ, ◌-◌, String, Bool, true, false, ◌&&◌, Option, none, some, List, [], ◌∷◌, any, nat_eq,
  if◌then◌else◌, ◌==◌,
}
use vault_transit_unseal_ope.Base.Text.{trim_space, contains}
use vault_transit_unseal_ope.Base.Dict
use vault_transit_unseal_ope.Base.Exec.{Exec, pure, ◌>>=◌}
use vault_transit_unseal_ope.Kube.{
  KubeError, conflict, invalid, bad_request, forbidden, unauthorized, not_found, too_large, Secret,
  text_at,
}
use vault_transit_unseal_ope.Token.World.{
  LedgerEntry, VaultError, response, transport, Call, Setup, World, ask,
}

abbrev pub ledger_annotation : String
ledger_annotation = "vault.homelab.io/revoke-ledger"

abbrev pub rotate_now_annotation : String
rotate_now_annotation = "vault.homelab.io/rotate-now"

abbrev pub cancel_revoke_annotation : String
cancel_revoke_annotation = "vault.homelab.io/cancel-revoke"

abbrev pub fence_annotation : String
fence_annotation = "vault.homelab.io/rotation-fence"

abbrev pub backoff_annotation : String
backoff_annotation = "vault.homelab.io/rotation-backoff-until"

abbrev pub ledger_cap : ℕ
ledger_cap = 16

abbrev pub ledger_full : ℕ
ledger_full = ledger_cap - 1

-- The parse of a trimmed annotation: none for a ledger that is no valid JSON.
unfoldable pub parse_ledger : Setup → String → Option (List LedgerEntry)
parse_ledger c raw = if raw == "" then some [] else c.codec.unmarshal raw

unfoldable pub read_ledger : Setup → Secret → Option (List LedgerEntry)
unfolding parse_ledger
read_ledger c secret = parse_ledger c (trim_space (text_at secret.annotations ledger_annotation))

unfoldable pub write_ledger : Setup → Secret → List LedgerEntry → Secret
write_ledger c secret [] = record secret {
  annotations = Dict.remove secret.annotations ledger_annotation;
}
write_ledger c secret (e ∷ es) = record secret {
  annotations = Dict.put secret.annotations ledger_annotation (c.codec.marshal (e ∷ es));
}

unfoldable pub ledger_has_accessor : List LedgerEntry → String → Bool
ledger_has_accessor entries accessor = any (λ e. e.accessor == accessor) entries

-- A failed write that is known not to have landed and never to land
unfoldable pub write_definitely_rejected : KubeError → Bool
write_definitely_rejected conflict = true
write_definitely_rejected invalid = true
write_definitely_rejected bad_request = true
write_definitely_rejected forbidden = true
write_definitely_rejected unauthorized = true
write_definitely_rejected not_found = true
write_definitely_rejected too_large = true
write_definitely_rejected _ = false

pub data WriteClass : Type 0 where
  definite uncertain : WriteClass

unfoldable pub write_class : KubeError → WriteClass
unfolding write_definitely_rejected
write_class e = if write_definitely_rejected e then definite else uncertain

-- Vault answered 400 and said that it knows no such accessor.
unfoldable pub is_invalid_accessor : VaultError → Bool
is_invalid_accessor (response status errors) =
    nat_eq status 400 && any (λ msg. contains msg "invalid accessor") errors
is_invalid_accessor transport = false

pub data RevokeError : Type 0 where
  revoke_failed verify_failed : VaultError → RevokeError
  still_valid : RevokeError

-- The request failed, and not because the accessor is gone already.
abbrev pub blocking : Option VaultError → Option VaultError
blocking none = none
blocking (some e) = if is_invalid_accessor e then none else some e

abbrev pub verdict : Option VaultError → Option RevokeError
verdict none = some RevokeError.still_valid
verdict (some e) = if is_invalid_accessor e then none else some (RevokeError.verify_failed e)

module _ (c : Setup) where
  unfoldable pub call_revoke : String → Exec World (Option VaultError)
  call_revoke accessor w =
      ask (Call.revoke_accessor w.client_token accessor) (λ h. c.env.revoke_accessor h accessor) w

  unfoldable pub call_lookup_accessor : String → Exec World (Option VaultError)
  call_lookup_accessor accessor w =
      ask (Call.lookup_accessor w.client_token accessor) (λ h. c.env.lookup_accessor h accessor) w

  verify : String → Option VaultError → Exec World (Option RevokeError)
  verify accessor (some e) = pure (some (RevokeError.revoke_failed e))
  verify accessor none = do answer ← call_lookup_accessor accessor; pure (verdict answer)

  unfoldable pub revoke_and_verify : String → Exec World (Option RevokeError)
  unfolding verify
  revoke_and_verify accessor = do answer ← call_revoke accessor; verify accessor (blocking answer)
