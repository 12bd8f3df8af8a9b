-- ===== src/Token/Swap/Revoking.antt =====
-- Minting and swapping revoke at most the token that this pass has minted.
use vault_transit_unseal_ope.Base.{String, Bool, none, some, List}
use vault_transit_unseal_ope.Base.Exec.{Keeps, ◌>>=◌}
use vault_transit_unseal_ope.Kube.{KubeError, Secret, ℤ}
use vault_transit_unseal_ope.Token.World.{Result, ok, err, LedgerEntry, Setup}
use vault_transit_unseal_ope.Token.Ledger.Revoking.{revoke_and_verify-Revokes}
use vault_transit_unseal_ope.Token.Backoff.Revoking.{update-Revokes, clear_backoff-Revokes}
use vault_transit_unseal_ope.Token.Mint.{Minted, minted, mint_failed, mint_admin_token}
use vault_transit_unseal_ope.Token.Mint.Revoking.{MintedIn, Creates, mint_admin_token-Revokes}
use vault_transit_unseal_ope.Token.Pass.{View, on_world}
use vault_transit_unseal_ope.Token.Pass.Revoking.{fail-Revokes}
use vault_transit_unseal_ope.Token.Fence.Revoking.{resolve_swap-Revokes}
use vault_transit_unseal_ope.Token.Swap.{
  record_backup, backup_rotated_token, swap_write, ledger_write, record_and_swap, after_mint,
  mint_and_swap,
}
use vault_transit_unseal_ope.Token.Trace.{Revokes, PassTraced, trace_rules}

module _ (R : String → Type 0) (c : Setup) (v : View) where
  record_backup-Revokes : (b : Bool) → Keeps (PassTraced (Revokes R)) (record_backup c v b)
  unfolding record_backup
  record_backup-Revokes b = search (trace_rules, tt)

  backup_rotated_token-Revokes :
      (t : String) → Keeps (PassTraced (Revokes R)) (backup_rotated_token c v t)
  unfolding backup_rotated_token
  backup_rotated_token-Revokes t = search (trace_rules, record_backup-Revokes, tt)

  swap_write-Revokes :
      (t s : String) (es : List LedgerEntry) (r : Result KubeError Secret)
      → Keeps (PassTraced (Revokes R)) (swap_write c v t s es r)
  unfolding swap_write
  swap_write-Revokes t s es (ok secret) =
      search (trace_rules, backup_rotated_token-Revokes, clear_backoff-Revokes) depth 9
  swap_write-Revokes t s es (err e) = search (trace_rules, resolve_swap-Revokes, fail-Revokes)

  ledger_write-Revokes :
      (t a s : String) (es : List LedgerEntry) (r : Result KubeError Secret)
      → R a
      → Keeps (PassTraced (Revokes R)) (ledger_write c v t a s es r)
  unfolding ledger_write
  ledger_write-Revokes t a s es (ok secret) h =
      search (trace_rules, update-Revokes, swap_write-Revokes) depth 8
  ledger_write-Revokes t a s es (err e) h =
      search (trace_rules, revoke_and_verify-Revokes, fail-Revokes)

  record_and_swap-Revokes :
      (b : Bool) (g : ℤ) (t a : String)
      → R a
      → Keeps (PassTraced (Revokes R)) (record_and_swap c v b g t a)
  unfolding record_and_swap
  record_and_swap-Revokes b g t a h =
      search
        (
          trace_rules,
          update-Revokes,
          λ (s : String) (es : List LedgerEntry) (r : Result KubeError Secret).
              ledger_write-Revokes t a s es r h,
          tt,
        )
        depth 8

  after_mint-Revokes :
      (b : Bool) (g : ℤ) (m : Minted)
      → MintedIn R m
      → Keeps (PassTraced (Revokes R)) (after_mint c v b g m)
  unfolding after_mint
  after_mint-Revokes b g (minted t a) h = record_and_swap-Revokes b g t a h
  after_mint-Revokes b g (mint_failed e none) h = fail-Revokes R c v _
  after_mint-Revokes b g (mint_failed e (some a)) h =
      search (trace_rules, revoke_and_verify-Revokes, fail-Revokes)

  pub mint_and_swap-Revokes :
      Creates R c → (b : Bool) (g : ℤ) → Keeps (PassTraced (Revokes R)) (mint_and_swap c v b g)
  unfolding mint_and_swap ◌>>=◌ on_world
  mint_and_swap-Revokes new b g = record {
    at = λ p h.
        let (m, t) = (mint_admin_token-Revokes R c new "rotation").at p.world h in
        (after_mint-Revokes b g (mint_admin_token c "rotation" p.world).0 m).at _ t;
  }
