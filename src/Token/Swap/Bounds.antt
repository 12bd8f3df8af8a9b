-- ===== src/Token/Swap/Bounds.antt =====
-- A rotation keeps the ledger within its cap.
use vault_transit_unseal_ope.Base.{
  String, Bool, none, some, List, [], ◌∷◌, ◌++◌, ◌≤◌, ◌<◌, arith, length, length-append,
}
use vault_transit_unseal_ope.Base.Exec.{Keeps, Keeps-pure, Keeps-if, Keeps-bind, ◌>>=◌}
use vault_transit_unseal_ope.Kube.{KubeError, Secret, ℤ}
use vault_transit_unseal_ope.Token.World.{Result, ok, err, LedgerEntry, Setup, ask}
use vault_transit_unseal_ope.Token.Ledger.{ledger_full, ledger_cap}
use vault_transit_unseal_ope.Token.Mint.{Minted, minted, mint_failed}
use vault_transit_unseal_ope.Token.Pass.{Pass, View, RotateError, fail, on_world}
use vault_transit_unseal_ope.Token.Fence.Bounds.{
  IsCapped, ServesCapped, on_world-IsCapped, hold-IsCapped, resolve_swap-IsCapped,
}
use vault_transit_unseal_ope.Token.Swap.{
  Call, mint_entry, old_entry, installed_entries, record_backup, backup_rotated_token, swap_write,
  ledger_write, record_and_swap, after_mint, mint_and_swap,
}

length-installed_entries-le :
    (id : String) (es : List LedgerEntry) → length (installed_entries id es) ≤ length es
unfolding installed_entries
length-installed_entries-le id [] = omega arith
length-installed_entries-le id (e ∷ es) = ground (arith, length-installed_entries-le id es)

module _ (c : Setup) (serves : ServesCapped c) (v : View) where
  pub fail-IsCapped : (e : RotateError) → Keeps IsCapped (fail c v e)
  unfolding fail
  fail-IsCapped e = search (Keeps-bind, Keeps-pure, on_world-IsCapped) depth 8

  backup_rotated_token-IsCapped : (t : String) → Keeps IsCapped (backup_rotated_token c v t)
  unfolding backup_rotated_token record_backup
  backup_rotated_token-IsCapped t =
      search (Keeps-bind, Keeps-if, Keeps-pure, on_world-IsCapped) depth 8

  swap_write-IsCapped :
      (t id : String) (es : List LedgerEntry) (r : Result KubeError Secret)
      → length es ≤ ledger_cap
      → Keeps IsCapped (swap_write c v t id es r)
  unfolding swap_write
  swap_write-IsCapped t id es (ok s) h =
      search
        (Keeps-bind, Keeps-pure, on_world-IsCapped, hold-IsCapped, backup_rotated_token-IsCapped)
        depth 9
  swap_write-IsCapped t id es (err e) h =
      search (Keeps-bind, Keeps-if, resolve_swap-IsCapped, fail-IsCapped)

  ledger_write-IsCapped :
      (t a id : String) (es : List LedgerEntry) (r : Result KubeError Secret)
      → length es ≤ ledger_cap
      → Keeps IsCapped (ledger_write c v t a id es r)
  unfolding ledger_write
  ledger_write-IsCapped t a id es (ok s) h = Keeps-bind _ _ (hold-IsCapped s es h) λ _.
      Keeps-bind _ (swap_write c v t id (installed_entries id es)) (on_world-IsCapped _) λ r.
        swap_write-IsCapped t id (installed_entries id es) r
          (omega (arith, length-installed_entries-le id es))
  ledger_write-IsCapped t a id es (err e) h = search (Keeps-bind, on_world-IsCapped, fail-IsCapped)

  -- From a ledger below the limit at which minting stops, a rotation stays within the cap.
  record_and_swap-IsCapped :
      (b : Bool) (g : ℤ) (t a : String) (p : Pass)
      → length p.ledger < ledger_full
      → IsCapped (record_and_swap c v b g t a p).1
  unfolding record_and_swap ◌>>=◌ on_world
  record_and_swap-IsCapped b g t a p h =
      let id = (ask Call.swap_id c.env.swap_id p.world).0 in
      let pair = mint_entry a id ∷ old_entry v b g id ∷ [] in
      (ledger_write-IsCapped t a id (p.ledger ++ pair) _
          (omega (arith, length-append p.ledger pair))).at
        _ (omega arith)

  after_mint-IsCapped :
      (b : Bool) (g : ℤ) (m : Minted) (p : Pass)
      → length p.ledger < ledger_full
      → IsCapped (after_mint c v b g m p).1
  unfolding after_mint
  after_mint-IsCapped b g (minted t a) p h = record_and_swap-IsCapped b g t a p h
  after_mint-IsCapped b g (mint_failed e none) p h = (fail-IsCapped _).at p (omega arith)
  after_mint-IsCapped b g (mint_failed e (some a)) p h =
      (Keeps-bind _ _ (on_world-IsCapped _) (λ _. fail-IsCapped _)).at p (omega arith)

  pub mint_and_swap-IsCapped :
      (b : Bool) (g : ℤ) (p : Pass)
      → length p.ledger < ledger_full
      → IsCapped (mint_and_swap c v b g p).1
  unfolding mint_and_swap ◌>>=◌ on_world
  mint_and_swap-IsCapped b g p h = after_mint-IsCapped b g _ _ h
