-- ===== src/Transit/Tests.antt =====
-- Runs of the backup and of the resolvers.
use vault_transit_unseal_ope.Base.Dict.{Dict}
use vault_transit_unseal_ope.Base.Dict
use vault_transit_unseal_ope.Transit.Backup.Cell.{
  IsCell, known_token, backup_token_to_transit-IsCell,
}
use vault_transit_unseal_ope.Transit.Kv.{new_kv_client}
use vault_transit_unseal_ope.Transit.Resolver.{resolve_address}
use vault_transit_unseal_ope.Base.{refl, ◌≡◌}
use vault_transit_unseal_ope.Transit.Backup.RoundTrip.{
  recover_token_from_transit-backup_token_to_transit,
}
use vault_transit_unseal_ope.Base.Try.{ok}
use vault_transit_unseal_ope.Transit.Backup.{
  connect, backup_token_to_transit, recover_token_from_transit,
}
use vault_transit_unseal_ope.Transit.Cluster.{backed_up, setup, start, keeping-IsDurable}

recover_token_from_transit-backup_token_to_transit_example :
    (recover_token_from_transit setup (backup_token_to_transit setup "hvs.admin" start).1).0
    ≡ ok "hvs.admin"
recover_token_from_transit-backup_token_to_transit_example =
    recover_token_from_transit-backup_token_to_transit setup "hvs.admin" keeping-IsDurable start
      backed_up

connected : connect setup ≡ ok tt
unfolding connect resolve_address Dict.get Dict.put new_kv_client
connected = refl

backup_token_to_transit-IsCell_example :
    IsCell
      (backup_token_to_transit setup)
      (recover_token_from_transit setup)
      (known_token setup keeping-IsDurable connected)
backup_token_to_transit-IsCell_example =
    backup_token_to_transit-IsCell setup keeping-IsDurable connected
