-- ===== src/Token/Swap.antt =====
-- pkg/token/rotate.go: minting a replacement, recording both tokens, and swapping the Secret.
pub mod Revoking
pub mod Tracked
pub mod Bounds
use vault_transit_unseal_ope.Base.{
  String, Bool, true, ◌&&◌, not, Option, none, some, List, [], ◌∷◌, ◌++◌, if◌then◌else◌, ◌==◌,
}
use vault_transit_unseal_ope.Base.Dict
use vault_transit_unseal_ope.Base.Exec.{Exec, pure, gets, ◌>>=◌, ◌>>◌}
use vault_transit_unseal_ope.Kube.{KubeError, Secret, ℤ, add_time}
use vault_transit_unseal_ope.Token.World.{
  Result, ok, err, scheduled, unresolved, superseded, forced, unresolved_mint, LedgerEntry, normal,
  warning, Metric, Call, Setup, ask,
}
use vault_transit_unseal_ope.Token.Ledger.{
  rotate_now_annotation, backoff_annotation, write_definitely_rejected, write_class, write_ledger,
  revoke_and_verify,
}
use vault_transit_unseal_ope.Token.Backoff.{update, clear_backoff}
use vault_transit_unseal_ope.Token.Mint.{Minted, minted, mint_failed, mint_admin_token}
use vault_transit_unseal_ope.Token.Pass.{
  Pass, View, RotateError, failed_mint, failed_ledger, failed_swap, is_unresolved_mint, on_world,
  hold, event, measure, fail,
}
use vault_transit_unseal_ope.Token.Fence.{resolve_swap}

-- The ledger entry of the token that is replaced
unfoldable pub old_entry : View → Bool → ℤ → String → LedgerEntry
old_entry v immediate grace swap_id = record {
  accessor = v.accessor;
  not_before = if immediate then v.now else add_time v.now grace;
  reason = if immediate then forced else superseded;
  state = scheduled;
  swap_id = swap_id;
}

-- The ledger entry of the minted token, until its swap has landed
unfoldable pub mint_entry : String → String → LedgerEntry
mint_entry accessor swap_id = record {
  accessor = accessor;
  not_before = 0;
  reason = unresolved_mint;
  state = unresolved;
  swap_id = swap_id;
}

-- The ledger that the swap writes: without the entry of the minted token
unfoldable pub installed_entries : String → List LedgerEntry → List LedgerEntry
installed_entries swap_id [] = []
installed_entries swap_id (e ∷ es) =
    let rest = installed_entries swap_id es in
    if e.swap_id == swap_id && is_unresolved_mint e.reason then rest else e ∷ rest

module _ (c : Setup) (v : View) where
  -- The Secret with the minted token in the place of the old one
  unfoldable pub swapped_secret : String → String → Secret → Secret
  swapped_secret token accessor s =
      let stamp = c.codec.format_time v.now in
      let created = Dict.put s.annotations "vault.homelab.io/token-created" stamp in
      let named = Dict.put created "vault.homelab.io/token-accessor" accessor in
      let rotated = Dict.put named "vault.homelab.io/rotated-at" stamp in
      record s {
        data_of = Dict.put s.data_of "token" token;
        annotations = Dict.remove (Dict.remove rotated rotate_now_annotation) backoff_annotation;
      }

  record_backup : Bool → Exec Pass (Unit {0})
  record_backup failed =
      if failed
      then (do measure Metric.backup_failure; event warning "TokenBackupFailed")
      else pure tt

  unfoldable pub backup_rotated_token : String → Exec Pass (Unit {0})
  unfolding record_backup
  backup_rotated_token token =
      if not (c.has_backup && c.vtu.recovery_enabled && c.vtu.backup_to_transit)
      then pure tt
      else (do failed ← on_world (ask (Call.backup token) c.env.backup_fails); record_backup failed)

  swap_write :
      String → String → List LedgerEntry → Result KubeError Secret → Exec Pass (Option RotateError)
  unfolding backup_rotated_token
  swap_write token swap_id installed (ok swapped) = do
    hold swapped installed
    backup_rotated_token token
    on_world (clear_backoff c)
    measure (Metric.admin_token_rotation true)
    event normal "TokenRotated"
    pure none
  swap_write token swap_id installed (err e) =
      if write_definitely_rejected e
      then (do resolve_swap c v swap_id; fail c v (failed_swap (write_class e) e))
      else fail c v (failed_swap (write_class e) e)

  ledger_write :
      String
      → String
      → String
      → List LedgerEntry
      → Result KubeError Secret
      → Exec Pass (Option RotateError)
  unfolding swap_write swapped_secret
  ledger_write token accessor swap_id recorded (err e) = do
    on_world (revoke_and_verify c accessor)
    fail c v (failed_ledger (write_class e) e)
  ledger_write token accessor swap_id recorded (ok with_ledger) = do
    hold with_ledger recorded
    let installed = installed_entries swap_id recorded
    let swapped = write_ledger c (swapped_secret token accessor with_ledger) installed
    answer ← on_world (update c swapped)
    swap_write token swap_id installed answer

  record_and_swap : Bool → ℤ → String → String → Exec Pass (Option RotateError)
  unfolding ledger_write
  record_and_swap immediate grace token accessor = do
    swap_id ← on_world (ask Call.swap_id c.env.swap_id)
    p ← gets (λ (p : Pass). p)
    let recorded =
        p.ledger ++ (mint_entry accessor swap_id ∷ old_entry v immediate grace swap_id ∷ [])
    answer ← on_world (update c (write_ledger c p.secret recorded))
    ledger_write token accessor swap_id recorded answer

  -- A token that did not validate is revoked; nobody holds it.
  after_mint : Bool → ℤ → Minted → Exec Pass (Option RotateError)
  unfolding record_and_swap
  after_mint immediate grace (mint_failed e none) = fail c v (failed_mint e)
  after_mint immediate grace (mint_failed e (some accessor)) = do
    on_world (revoke_and_verify c accessor)
    fail c v (failed_mint e)
  after_mint immediate grace (minted token accessor) =
      record_and_swap immediate grace token accessor

  unfoldable pub mint_and_swap : Bool → ℤ → Exec Pass (Option RotateError)
  unfolding after_mint
  mint_and_swap immediate grace = do
    result ← on_world (mint_admin_token c "rotation")
    after_mint immediate grace result
