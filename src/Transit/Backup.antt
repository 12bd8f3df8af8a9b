-- ===== src/Transit/Backup.antt =====
-- The backup of the admin token in the transit Vault: `backupTokenToTransit` of
-- pkg/reconciler/vault_reconciler.go and `recoverTokenFromTransit` of pkg/secrets/recovery.go.
pub mod Cell
pub mod RoundTrip
use vault_transit_unseal_ope.Base.Exec.{◌>>=◌}
use vault_transit_unseal_ope.Base.{Bool, Option, String, none, some}
use vault_transit_unseal_ope.Transit.Kv.{
  logged, KvError, build_token_backup_path, ensure_kv_enabled, new_kv_client, panicked, read_token,
  write_token,
}
use vault_transit_unseal_ope.Transit.Resolver.{
  AddressError, Reads, TransitVaultSpec, resolve_address, value_in,
}
use vault_transit_unseal_ope.Transit.World.{Env, World}
use vault_transit_unseal_ope.Base.Try.{Result, Try, err, ok, or_fail, ◌>>◌}

pub record Setup : Type 0 where
  pub env : Env
  pub reads : Reads
  pub spec : TransitVaultSpec
  pub namespace : String
  pub name : String
  -- `TransitKVPath`
  pub kv_path : String
  -- whether the Vault library's client can be made
  pub client_succeeds : Bool

pub data BackupError : Type 0 where
  unresolved no_transit_token : AddressError → BackupError
  kv_failed : KvError → BackupError

abbrev no_error : Option KvError → Result BackupError (Unit {0})
no_error none = ok tt
no_error (some e) = err (kv_failed e)

module _ (c : Setup) where
  with_transit_token : String → Result AddressError String → Result BackupError (Unit {0})
  with_transit_token address (err e) = err (no_transit_token e)
  with_transit_token address (ok t) = no_error (new_kv_client c.client_succeeds address t)

  with_address : Result AddressError String → Result BackupError (Unit {0})
  unfolding with_transit_token
  with_address (err e) = err (unresolved e)
  with_address (ok a) =
      with_transit_token a
        (value_in c.spec.secret_key (c.reads.secret c.namespace c.spec.secret_name))

  -- The address, the transit token and the client, which both directions start with
  unfoldable pub connect : Result BackupError (Unit {0})
  unfolding with_address
  connect = with_address (resolve_address c.reads c.spec c.namespace)

  abbrev pub backup_path : String
  backup_path = build_token_backup_path c.namespace c.name c.kv_path

  unfoldable pub start :
      {A : Type 0}
      → Result BackupError (Unit {0})
      → Try World BackupError A
      → Try World BackupError A
  start (ok u) m w = m w
  start (err e) m w = (err e, w)

  -- `backupTokenToTransit`
  unfoldable pub backup_token_to_transit : String → Try World BackupError (Unit {0})
  unfolding start
  backup_token_to_transit token = start connect (do
    or_fail kv_failed (ensure_kv_enabled c.env)
    or_fail kv_failed (write_token c.env backup_path token))

  ensure_logged : Try World KvError (Unit {0})
  unfolding logged
  ensure_logged w = (logged (ensure_kv_enabled c.env w).0, (ensure_kv_enabled c.env w).1)

  -- `recoverTokenFromTransit`
  unfoldable pub recover_token_from_transit : Try World BackupError String
  unfolding start ensure_logged
  recover_token_from_transit =
      start connect
        (do or_fail kv_failed ensure_logged; or_fail kv_failed (read_token c.env backup_path))
