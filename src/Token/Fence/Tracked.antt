-- ===== src/Token/Fence/Tracked.antt =====
-- Settling a swap writes only tokens that it has read.
use vault_transit_unseal_ope.Base.{
  Bool, List, Option, String, [], false, none, not, some, suc, true, zero, ℕ, ◌==◌, ◌∷◌,
}
use vault_transit_unseal_ope.Base.Exec.{
  Exec, Keeps, Keeps-bind, Keeps-if, Keeps-pure, Triple, Triple-bind, Triple-if, pure, ◌>>=◌,
}
use vault_transit_unseal_ope.Base.Text.{trim_space}
use vault_transit_unseal_ope.Kube.{KubeError, Secret, is_conflict, text_at}
use vault_transit_unseal_ope.Token.Backoff.{get_admin_secret, update}
use vault_transit_unseal_ope.Token.Fence.{
  fence_read, settle, fence_entries, settle_ledger, fence_attempts, settle_write, resolve_all,
  fence_write, FenceOutcome, fence, fence_landed, fence_not_landed, fence_unresolved, fenced,
  has_unresolved_mint, resolve_swap, resolve_unresolved, settle_entries, unresolved_swaps,
}
use vault_transit_unseal_ope.Token.Ledger.{read_ledger, write_ledger}
use vault_transit_unseal_ope.Token.Pass.{Pass, View, hold, on_world}
use vault_transit_unseal_ope.Token.Trace.{Traced}
use vault_transit_unseal_ope.Token.Tracked.{
  IsGood, IsKnown, IsKnown-write_ledger, Knows, PassKnows, Tracked, get-Knows, good_rules, token_of,
  update-Knows, update-PassKnows,
}
use vault_transit_unseal_ope.Token.World.{LedgerEntry, Result, Setup, World, err, ok}

module _ (c : Setup) (v : View) (first id : String) where
  -- The Secret that a fence ends with has a known token.
  abbrev Ends : FenceOutcome → World → Type 0
  Ends fence_unresolved w = Traced (Tracked c v first) w
  Ends (fence_landed s) w = IsKnown c first (token_of s) × Traced (Tracked c v first) w
  Ends (fence_not_landed s) w = IsKnown c first (token_of s) × Traced (Tracked c v first) w

  stay : Triple (Traced (Tracked c v first)) (pure fence_unresolved) Ends
  unfolding pure
  stay = record { at = λ w t. t }

  fence_write-Ends :
      (again : Exec World FenceOutcome)
      → Triple (Traced (Tracked c v first)) again Ends
      → (r : Result KubeError Secret) → Triple (Knows c v first r) (fence_write c v id again r) Ends
  unfolding fence_write pure
  fence_write-Ends again t (ok s) = record { at = λ w k. k }
  fence_write-Ends again t (err e) = Triple-if (is_conflict e) again (pure fence_unresolved) t stay

  fence_entries-Ends :
      (again : Exec World FenceOutcome)
      → Triple (Traced (Tracked c v first)) again Ends
      → (s : Secret) (o : Option (List LedgerEntry)) → IsKnown c first (token_of s)
      → Triple (Traced (Tracked c v first)) (fence_entries c v id again s o) Ends
  unfolding fence_entries pure
  fence_entries-Ends again t s none k = record { at = λ w h. h }
  fence_entries-Ends again t s (some es) k =
      Triple-if (not (has_unresolved_mint es id)) (pure (fence_landed s)) _
        (record { at = λ w h. (k, h) })
        (Triple-bind (update c (fenced c v id s)) (fence_write c v id again)
          (update-Knows c v first (fenced c v id s) k) (fence_write-Ends again t))

  fence_read-Ends :
      (again : Exec World FenceOutcome)
      → Triple (Traced (Tracked c v first)) again Ends
      → (r : Result KubeError Secret) → Triple (Knows c v first r) (fence_read c v id again r) Ends
  unfolding fence_read pure
  fence_read-Ends again t (ok s) = record {
    at = λ w k. (fence_entries-Ends again t s (read_ledger c s) k.0).at w k.1;
  }
  fence_read-Ends again t (err e) = record { at = λ w k. k }

  fence_attempts-Ends : (n : ℕ) → Triple (Traced (Tracked c v first)) (fence_attempts c v id n) Ends
  unfolding fence_attempts
  fence_attempts-Ends zero = stay
  fence_attempts-Ends (suc n) =
      Triple-bind (get_admin_secret c) (fence_read c v id (fence_attempts c v id n))
        (get-Knows c v first) (fence_read-Ends (fence_attempts c v id n) (fence_attempts-Ends n))

  abbrev IsGoodAfter : Bool → Pass → Type 0
  IsGoodAfter b p = IsGood c v first p

  settle_write-IsGood :
      (es : List LedgerEntry) (r : Result KubeError Secret)
      → Triple (PassKnows c v first r) (settle_write c v id es r) IsGoodAfter
  unfolding settle_write pure ◌>>=◌ hold
  settle_write-IsGood es (ok s) = record { at = λ p k. (k.0.1, k.0.0) }
  settle_write-IsGood es (err e) = record { at = λ p k. k }

  settle_ledger-IsGood :
      (s : Secret) (o : Option (List LedgerEntry))
      → IsKnown c first (token_of s)
      → Keeps (IsGood c v first) (settle_ledger c v id s o)
  unfolding settle_ledger
  settle_ledger-IsGood s none k = Keeps-pure true
  settle_ledger-IsGood s (some es) k =
      let kept = settle_entries id v.now v.accessor es in
      Triple-bind (on_world (update c (write_ledger c s kept))) (settle_write c v id kept)
        (update-PassKnows c v first (write_ledger c s kept) (IsKnown-write_ledger c first s kept k))
        (settle_write-IsGood kept)

  abbrev PassEnds : FenceOutcome → Pass → Type 0
  PassEnds o p = Ends o p.world × IsKnown c first (token_of p.secret)

  unresolved-IsGood : Keeps (IsGood c v first) (settle c v id fence_unresolved)
  unfolding settle
  unresolved-IsGood = search (good_rules, tt) depth 8

  settle-IsGood : (o : FenceOutcome) → Triple (PassEnds o) (settle c v id o) IsGoodAfter
  unfolding settle pure
  settle-IsGood fence_unresolved = unresolved-IsGood
  settle-IsGood (fence_landed s) = record { at = λ p k. (k.0.1, k.1) }
  settle-IsGood (fence_not_landed s) = record {
    at = λ p k.
        (Keeps-if (not (trim_space (text_at s.data_of "token") == v.token)) (pure true)
            (settle_ledger c v id s (read_ledger c s)) (Keeps-pure true)
            (settle_ledger-IsGood s (read_ledger c s) k.0.0)).at
          p (k.0.1, k.1);
  }

  fence-PassEnds : Triple (IsGood c v first) (on_world (fence c v id)) PassEnds
  unfolding on_world fence
  fence-PassEnds = record { at = λ p g. ((fence_attempts-Ends 3).at p.world g.0, g.1) }

  pub resolve_swap-IsGood : Keeps (IsGood c v first) (resolve_swap c v id)
  unfolding resolve_swap
  resolve_swap-IsGood =
      Triple-bind (on_world (fence c v id)) (settle c v id) fence-PassEnds settle-IsGood

module _ (c : Setup) (v : View) (first : String) where
  resolve_all-IsGood : (ids : List String) → Keeps (IsGood c v first) (resolve_all c v ids)
  unfolding resolve_all
  resolve_all-IsGood [] = Keeps-pure false
  resolve_all-IsGood (s ∷ rest) =
      Keeps-bind (resolve_swap c v s) _ (resolve_swap-IsGood c v first s)
        λ stop. Keeps-if stop _ (resolve_all c v rest) (Keeps-pure true) (resolve_all-IsGood rest)

  pub resolve_unresolved-IsGood : Keeps (IsGood c v first) (resolve_unresolved c v)
  unfolding resolve_unresolved
  resolve_unresolved-IsGood = record {
    at = λ p g. (resolve_all-IsGood (unresolved_swaps p.ledger)).at p g;
  }
