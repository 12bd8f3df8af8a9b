-- ===== src/Token/Swap/Tracked.antt =====
-- The swap is the one write of a new token, and it schedules the old one.
use vault_transit_unseal_ope.Base.Dict
use vault_transit_unseal_ope.Base.Dict.{Dict}
use vault_transit_unseal_ope.Base.Exec.{Exec, Keeps, Triple, Triple-bind, gets, ◌>>=◌, ◌>>◌}
use vault_transit_unseal_ope.Token.Backoff.{update}
use vault_transit_unseal_ope.Token.Backoff.Tracked.{clear_backoff-Tracked}
use vault_transit_unseal_ope.Token.Fence.Tracked.{resolve_swap-IsGood}
use vault_transit_unseal_ope.Token.Ledger.Tracked.{revoke_and_verify-Tracked}
use vault_transit_unseal_ope.Token.Mint.{MintError, Minted, mint_admin_token, mint_failed, minted}
use vault_transit_unseal_ope.Token.Mint.Tracked.{mint_admin_token-Tracked}
use vault_transit_unseal_ope.Token.Pass.Tracked.{fail-IsGood}
use vault_transit_unseal_ope.Token.Trace.{PassTraced, trace_rules}
use vault_transit_unseal_ope.Token.Ledger.{revoke_and_verify, write_ledger}
use vault_transit_unseal_ope.Token.Tracked.{
  Good-on_world, IsGood, IsKnown-write_ledger, PassKnows, Tracked, good_rules, update-PassKnows,
  update-Tracked, Schedules,
}
use vault_transit_unseal_ope.Base.{
  Option, none, some, arith, false, if_cases, inl, inr, refl, true, ◌&&◌, ◌==◌, Bool, List, Some,
  String, [], ◌∷◌, ◌≡◌,
}
use vault_transit_unseal_ope.Kube.{KubeError, Secret, ℤ}
use vault_transit_unseal_ope.Token.Pass.{
  Pass, RotateError, fail, failed_mint, hold, on_world, is_unresolved_mint, View,
}
use vault_transit_unseal_ope.Token.Swap.{
  after_mint, ledger_write, record_and_swap, record_backup, swap_write, backup_rotated_token,
  mint_and_swap, mint_entry, swapped_secret, installed_entries, old_entry,
}
use vault_transit_unseal_ope.Token.World.{Result, ask, err, ok, Setup, LedgerEntry, scheduled}
use vault_transit_unseal_ope.Base.{◌++◌}

-- An entry that stays
abbrev Live : View → LedgerEntry → Type 0
Live v e = (e.accessor ≡ v.accessor) × (e.state ≡ scheduled)

old_test :
    (v : View) (b : Bool) (g : ℤ) (id : String)
    → let e = old_entry v b g id in (e.swap_id == id && is_unresolved_mint e.reason) ≡ false
unfolding old_entry
old_test v true g id = ground arith
old_test v false g id = ground arith

last-Live :
    (v : View) (b : Bool) (g : ℤ) (id : String)
    → Some (Live v) (installed_entries id (old_entry v b g id ∷ []))
unfolding installed_entries
last-Live v b g id = rw (old_test v b g id) (inl (unfold old_entry in (refl, refl)))

onto-Live :
    (v : View) (id : String) (e : LedgerEntry) (es : List LedgerEntry)
    → Some (Live v) (installed_entries id es)
    → Some (Live v) (installed_entries id (e ∷ es))
unfolding installed_entries
onto-Live v id e es h =
    if_cases (Some (Live v)) (e.swap_id == id && is_unresolved_mint e.reason)
      (installed_entries id es) (e ∷ installed_entries id es) (λ _. h) (λ _. inr h)

-- The swap keeps the entry of the replaced token in the ledger.
installed-Live :
    (v : View) (b : Bool) (g : ℤ) (id : String) (m : LedgerEntry) (es : List LedgerEntry)
    → Some (Live v) (installed_entries id (es ++ (m ∷ old_entry v b g id ∷ [])))
installed-Live v b g id m [] = onto-Live v id m (old_entry v b g id ∷ []) (last-Live v b g id)
installed-Live v b g id m (e ∷ es) =
    onto-Live v id e (es ++ (m ∷ old_entry v b g id ∷ [])) (installed-Live v b g id m es)

written-Schedules :
    (c : Setup) (v : View) (s : Secret) (es : List LedgerEntry)
    → Some (Live v) es
    → Schedules c v (write_ledger c s es)
unfolding write_ledger
written-Schedules c v s [] h = elim h [ ]
written-Schedules c v s (e ∷ es) h = (e ∷ es, simp Dict.dict_laws, h)

module _ (c : Setup) (v : View) (first : String) where
  -- What holds from the swap on
  abbrev pub Ends : Option RotateError → Pass → Type 0
  Ends e p = PassTraced (Tracked c v first) p

  pub IsGood-Ends :
      (m : Exec Pass (Option RotateError))
      → Keeps (IsGood c v first) m
      → Triple (IsGood c v first) m Ends
  IsGood-Ends m k = record { at = λ p g. (k.at p g).0 }

  record_backup-Tracked : (b : Bool) → Keeps (PassTraced (Tracked c v first)) (record_backup c v b)
  unfolding record_backup
  record_backup-Tracked b = search (trace_rules, tt)

  backup-Tracked :
      (t : String) → Keeps (PassTraced (Tracked c v first)) (backup_rotated_token c v t)
  unfolding backup_rotated_token
  backup-Tracked t = search (trace_rules, record_backup-Tracked, tt)

  swapped-Tracked :
      (t id : String) (es : List LedgerEntry) (s : Secret)
      → Keeps (PassTraced (Tracked c v first)) (swap_write c v t id es (ok s))
  unfolding swap_write
  swapped-Tracked t id es s = search (trace_rules, backup-Tracked, clear_backoff-Tracked) depth 9

  failed-IsGood :
      (t id : String) (es : List LedgerEntry) (e : KubeError)
      → Keeps (IsGood c v first) (swap_write c v t id es (err e))
  unfolding swap_write
  failed-IsGood t id es e = search (good_rules, resolve_swap-IsGood, fail-IsGood)

  swap_write-Ends :
      (t id : String) (es : List LedgerEntry) (r : Result KubeError Secret)
      → Triple (IsGood c v first) (swap_write c v t id es r) Ends
  swap_write-Ends t id es (ok s) = record { at = λ p g. (swapped-Tracked t id es s).at p g.0 }
  swap_write-Ends t id es (err e) =
      IsGood-Ends (swap_write c v t id es (err e)) (failed-IsGood t id es e)

  refused-IsGood :
      (t a id : String) (es : List LedgerEntry) (e : KubeError)
      → Keeps (IsGood c v first) (ledger_write c v t a id es (err e))
  unfolding ledger_write
  refused-IsGood t a id es e = search (good_rules, revoke_and_verify-Tracked, fail-IsGood)

  hold-IsGood :
      (s : Secret) (es : List LedgerEntry)
      → Triple (PassKnows c v first (ok s)) (hold s es) (λ _ p. IsGood c v first p)
  unfolding hold
  hold-IsGood s es = record { at = λ p k. (k.0.1, k.0.0) }

  ledger_write-Ends :
      (t a id : String) (es : List LedgerEntry) (r : Result KubeError Secret)
      → Some (Live v) (installed_entries id es)
      → Triple (PassKnows c v first r) (ledger_write c v t a id es r) Ends
  ledger_write-Ends t a id es (err e) live = record {
    at = λ p k. ((refused-IsGood t a id es e).at p k).0;
  }
  ledger_write-Ends t a id es (ok s) live =
      let swapped = write_ledger c (swapped_secret c v t a s) (installed_entries id es) in
      unfold ledger_write in
      Triple-bind (hold s es) _ (hold-IsGood s es) λ _.
        Triple-bind (on_world (update c swapped)) (swap_write c v t id (installed_entries id es))
          (Good-on_world c v first (update c swapped) (
            update-Tracked c v first swapped
              (written-Schedules c v (swapped_secret c v t a s) (installed_entries id es) live)))
          (swap_write-Ends t id (installed_entries id es))

  after_id-Ends :
      (b : Bool) (g : ℤ) (t a id : String) (p : Pass)
      → IsGood c v first p
      → let es = p.ledger ++ (mint_entry a id ∷ old_entry v b g id ∷ []) in
        Ends none
          ((on_world (update c (write_ledger c p.secret es)) >>= ledger_write c v t a id es) p).1
  after_id-Ends b g t a id p good =
      let es = p.ledger ++ (mint_entry a id ∷ old_entry v b g id ∷ []) in
      (Triple-bind (on_world (update c (write_ledger c p.secret es))) (ledger_write c v t a id es)
          (update-PassKnows c v first (write_ledger c p.secret es)
            (IsKnown-write_ledger c first p.secret es good.1))
          (λ r.
            ledger_write-Ends t a id es r (installed-Live v b g id (mint_entry a id) p.ledger))).at
        p good

  record_and_swap-Ends :
      (b : Bool) (g : ℤ) (t a : String)
      → Triple (IsGood c v first) (record_and_swap c v b g t a) Ends
  unfolding record_and_swap ◌>>=◌ on_world ask gets
  record_and_swap-Ends b g t a = record {
    at = λ p good. after_id-Ends b g t a (c.env.swap_id p.world.calls) _ ((tt, good.0), good.1);
  }

  revoked-IsGood :
      (a : String) (e : MintError)
      → Keeps (IsGood c v first) (do on_world (revoke_and_verify c a); fail c v (failed_mint e))
  revoked-IsGood a e = search (good_rules, revoke_and_verify-Tracked, fail-IsGood)

  after_mint-Ends :
      (b : Bool) (g : ℤ) (m : Minted) → Triple (IsGood c v first) (after_mint c v b g m) Ends
  unfolding after_mint
  after_mint-Ends b g (minted t a) = record_and_swap-Ends b g t a
  after_mint-Ends b g (mint_failed e none) =
      IsGood-Ends (fail c v (failed_mint e)) (fail-IsGood c v first (failed_mint e))
  after_mint-Ends b g (mint_failed e (some a)) = IsGood-Ends _ (revoked-IsGood a e)

  pub mint_and_swap-Ends :
      (b : Bool) (g : ℤ) → Triple (IsGood c v first) (mint_and_swap c v b g) Ends
  unfolding mint_and_swap
  mint_and_swap-Ends b g =
      Triple-bind (on_world (mint_admin_token c "rotation")) (after_mint c v b g)
        (Good-on_world c v first (mint_admin_token c "rotation")
          (mint_admin_token-Tracked c v first "rotation"))
        (after_mint-Ends b g)
