-- ===== src/Token/Fence/Revoking.antt =====
-- Settling a swap revokes nothing.
use vault_transit_unseal_ope.Base.{ℕ, true, zero, suc, String, Option, none, some, List, [], ◌∷◌}
use vault_transit_unseal_ope.Base.Exec.{Exec, Keeps, Keeps-pure, Keeps-if, Keeps-bind}
use vault_transit_unseal_ope.Kube.{KubeError, Secret}
use vault_transit_unseal_ope.Token.World.{Result, ok, err, LedgerEntry, Setup, World}
use vault_transit_unseal_ope.Token.Backoff.Revoking.{get_admin_secret-Revokes, update-Revokes}
use vault_transit_unseal_ope.Token.Pass.{View}
use vault_transit_unseal_ope.Token.Fence.{
  FenceOutcome, fence_unresolved, fence_landed, fence_not_landed, fence_write, fence_entries,
  fence_read, fence_attempts, fence, settle_write, settle_ledger, settle, resolve_swap, resolve_all,
  resolve_unresolved, unresolved_swaps,
}
use vault_transit_unseal_ope.Token.Trace.{Revokes, Traced, PassTraced, trace_rules}

module _ (R : String → Type 0) (c : Setup) (v : View) (swap_id : String) where
  fence_write-Revokes :
      (m : Exec World FenceOutcome)
      → Keeps (Traced (Revokes R)) m
      → (r : Result KubeError Secret) → Keeps (Traced (Revokes R)) (fence_write c v swap_id m r)
  unfolding fence_write
  fence_write-Revokes m k (ok s) = search trace_rules
  fence_write-Revokes m k (err e) = search trace_rules

  fence_entries-Revokes :
      (m : Exec World FenceOutcome)
      → Keeps (Traced (Revokes R)) m
      → (s : Secret) (o : Option (List LedgerEntry))
      → Keeps (Traced (Revokes R)) (fence_entries c v swap_id m s o)
  unfolding fence_entries
  fence_entries-Revokes m k s none = search trace_rules
  fence_entries-Revokes m k s (some es) =
      search (trace_rules, update-Revokes, fence_write-Revokes m k)

  fence_read-Revokes :
      (m : Exec World FenceOutcome)
      → Keeps (Traced (Revokes R)) m
      → (r : Result KubeError Secret) → Keeps (Traced (Revokes R)) (fence_read c v swap_id m r)
  unfolding fence_read
  fence_read-Revokes m k (ok s) = fence_entries-Revokes m k s _
  fence_read-Revokes m k (err e) = search trace_rules

  fence_attempts-Revokes : (n : ℕ) → Keeps (Traced (Revokes R)) (fence_attempts c v swap_id n)
  unfolding fence_attempts
  fence_attempts-Revokes zero = search trace_rules
  fence_attempts-Revokes (suc n) =
      let ih = fence_attempts-Revokes n in
      search (trace_rules, get_admin_secret-Revokes, fence_read-Revokes _ ih)

  settle_write-Revokes :
      (es : List LedgerEntry) (r : Result KubeError Secret)
      → Keeps (PassTraced (Revokes R)) (settle_write c v swap_id es r)
  unfolding settle_write
  settle_write-Revokes es (ok s) = search trace_rules
  settle_write-Revokes es (err e) = search trace_rules

  settle_ledger-Revokes :
      (s : Secret) (o : Option (List LedgerEntry))
      → Keeps (PassTraced (Revokes R)) (settle_ledger c v swap_id s o)
  unfolding settle_ledger
  settle_ledger-Revokes s none = search trace_rules
  settle_ledger-Revokes s (some es) = search (trace_rules, update-Revokes, settle_write-Revokes)

  settle-Revokes : (o : FenceOutcome) → Keeps (PassTraced (Revokes R)) (settle c v swap_id o)
  unfolding settle
  settle-Revokes fence_unresolved = search (trace_rules, tt) depth 8
  settle-Revokes (fence_landed s) = search trace_rules
  settle-Revokes (fence_not_landed s) = search (trace_rules, settle_ledger-Revokes)

  pub resolve_swap-Revokes : Keeps (PassTraced (Revokes R)) (resolve_swap c v swap_id)
  unfolding resolve_swap fence
  resolve_swap-Revokes = search (trace_rules, fence_attempts-Revokes, settle-Revokes)

module _ (R : String → Type 0) (c : Setup) (v : View) where
  resolve_all-Revokes : (ids : List String) → Keeps (PassTraced (Revokes R)) (resolve_all c v ids)
  unfolding resolve_all
  resolve_all-Revokes [] = search trace_rules
  resolve_all-Revokes (s ∷ rest) =
      Keeps-bind (resolve_swap c v s) _ (resolve_swap-Revokes R c v s)
        λ stop. Keeps-if stop _ (resolve_all c v rest) (Keeps-pure true) (resolve_all-Revokes rest)

  pub resolve_unresolved-Revokes : Keeps (PassTraced (Revokes R)) (resolve_unresolved c v)
  unfolding resolve_unresolved
  resolve_unresolved-Revokes = record {
    at = λ p h. (resolve_all-Revokes (unresolved_swaps p.ledger)).at p h;
  }
