-- ===== src/Token/Fence.antt =====
-- pkg/token/rotate.go: settling a swap whose outcome is unknown, by moving the Secret past the
-- resourceVersion on which the swap was preconditioned.
pub mod Revoking
pub mod Tracked
pub mod Bounds
pub mod ApiServer
pub mod Final
mod Tests
use vault_transit_unseal_ope.Base.{
  ℕ, zero, suc, String, Bool, true, false, ◌&&◌, not, Option, none, some, List, [], ◌∷◌, any,
  if◌then◌else◌, ◌==◌,
}
use vault_transit_unseal_ope.Base.Text.{trim_space}
use vault_transit_unseal_ope.Base.Dict
use vault_transit_unseal_ope.Base.Exec.{Exec, pure, ◌>>=◌, ◌>>◌}
use vault_transit_unseal_ope.Kube.{is_conflict, KubeError, conflict, Secret, Instant, text_at}
use vault_transit_unseal_ope.Token.World.{
  Result, ok, err, scheduled, LedgerEntry, warning, Metric, Setup, World,
}
use vault_transit_unseal_ope.Token.Ledger.{fence_annotation, read_ledger, write_ledger}
use vault_transit_unseal_ope.Token.Backoff.{get_admin_secret, update}
use vault_transit_unseal_ope.Token.Pass.{
  Pass, View, is_unresolved, is_unresolved_mint, on_world, hold, event, measure, skipped,
}

pub data FenceOutcome : Type 0 where
  -- the swap's outcome is still unknown
  fence_unresolved : FenceOutcome
  -- the minted entry is gone from the Secret
  fence_landed : Secret → FenceOutcome
  -- the Secret moved past the swap's resourceVersion
  fence_not_landed : Secret → FenceOutcome

unfoldable pub has_unresolved_mint : List LedgerEntry → String → Bool
has_unresolved_mint entries swap_id =
    any (λ e. e.swap_id == swap_id && is_unresolved_mint e.reason && is_unresolved e.state) entries

-- The entries after a swap is known not to have landed: its minted token is due for revocation
-- now, and the token that it would have replaced is dropped where it is the live one.
unfoldable pub settle_entries : String → Instant → String → List LedgerEntry → List LedgerEntry
settle_entries swap_id now live [] = []
settle_entries swap_id now live (e ∷ es) =
    let rest = settle_entries swap_id now live es in
    if e.swap_id == swap_id
    then (if is_unresolved_mint e.reason
        then record e { state = scheduled; not_before = now } ∷ rest
        else if e.accessor == live
        then rest
        else e ∷ rest)
    else e ∷ rest

module _ (c : Setup) (v : View) (swap_id : String) where
  abbrev pub fenced : Secret → Secret
  fenced fresh = record fresh {
    annotations = Dict.put fresh.annotations fence_annotation (c.codec.format_time_nano v.now);
  }

  fence_write : Exec World FenceOutcome → Result KubeError Secret → Exec World FenceOutcome
  fence_write again (ok fresh) = pure (fence_not_landed fresh)
  fence_write again (err e) = if is_conflict e then again else pure fence_unresolved

  fence_entries :
      Exec World FenceOutcome → Secret → Option (List LedgerEntry) → Exec World FenceOutcome
  fence_entries again fresh none = pure fence_unresolved
  fence_entries again fresh (some entries) =
      if not (has_unresolved_mint entries swap_id)
      then pure (fence_landed fresh)
      else (do answer ← update c (fenced fresh); fence_write again answer)

  fence_read : Exec World FenceOutcome → Result KubeError Secret → Exec World FenceOutcome
  fence_read again (err e) = pure fence_unresolved
  fence_read again (ok fresh) = fence_entries again fresh (read_ledger c fresh)

  -- `for attempt := 0; attempt < 3; attempt++`, by the attempts left
  fence_attempts : ℕ → Exec World FenceOutcome
  fence_attempts zero = pure fence_unresolved
  fence_attempts (suc n) = do answer ← get_admin_secret c; fence_read (fence_attempts n) answer

  unfoldable pub fence : Exec World FenceOutcome
  unfolding fence_attempts fence_read fence_entries fence_write
  fence = fence_attempts 3

  settle_write : List LedgerEntry → Result KubeError Secret → Exec Pass Bool
  settle_write kept (err e) = pure true
  settle_write kept (ok fresh) = do hold fresh kept; pure false

  settle_ledger : Secret → Option (List LedgerEntry) → Exec Pass Bool
  settle_ledger fresh none = pure true
  settle_ledger fresh (some entries) = do
    let kept = settle_entries swap_id v.now v.accessor entries
    answer ← on_world (update c (write_ledger c fresh kept))
    settle_write kept answer

  settle : FenceOutcome → Exec Pass Bool
  settle fence_unresolved = do
    event warning "TokenRotationFailed"
    measure (Metric.admin_token_rotation false)
    skipped
    pure true
  settle (fence_landed fresh) = pure true
  settle (fence_not_landed fresh) =
      if not (trim_space (text_at fresh.data_of "token") == v.token)
      then pure true
      else settle_ledger fresh (read_ledger c fresh)

  -- True when the pass must stop
  unfoldable pub resolve_swap : Exec Pass Bool
  unfolding settle settle_ledger settle_write
  resolve_swap = do outcome ← on_world fence; settle outcome

unfoldable pub unresolved_swaps : List LedgerEntry → List String
unresolved_swaps [] = []
unresolved_swaps (e ∷ es) =
    let rest = unresolved_swaps es in
    if is_unresolved_mint e.reason && is_unresolved e.state then e.swap_id ∷ rest else rest

module _ (c : Setup) (v : View) where
  resolve_all : List String → Exec Pass Bool
  resolve_all [] = pure false
  resolve_all (s ∷ rest) = do
    stop ← resolve_swap c v s
    if stop then pure true else resolve_all rest

  unfoldable pub resolve_unresolved : Exec Pass Bool
  unfolding resolve_all unresolved_swaps
  resolve_unresolved p = resolve_all (unresolved_swaps p.ledger) p
