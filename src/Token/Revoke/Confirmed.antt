-- ===== src/Token/Revoke/Confirmed.antt =====
-- pkg/token/rotate.go: which entries the loop of `revokeDue` drops.
use vault_transit_unseal_ope.Base.{
  String, Bool, true, false, not, ◌||◌, Option, none, some, List, [], ◌∷◌, ◌≡◌, ◌≤◌, ◌⊎◌, inl, inr,
  refl, arith, ltb, All, All-map, Some, if◌then◌else◌, ◌==◌, eq_iff, Bool-cases,
}
use vault_transit_unseal_ope.Base.Exec.{Keeps, Keeps-pure, Keeps-if, Keeps-bind, ◌>>=◌}
use vault_transit_unseal_ope.Token.World.{scheduled, LedgerEntry, Setup, Call, World, tell}
use vault_transit_unseal_ope.Token.Ledger.{RevokeError, revoke_and_verify}
use vault_transit_unseal_ope.Token.Ledger.Confirmed.{
  Gone, revoke_and_verify-Gone, revoke_and_verify-Keeps_Gone,
}
use vault_transit_unseal_ope.Token.Pass.{View, is_scheduled}
use vault_transit_unseal_ope.Token.Revoke.{after_revoke, revoke_entry, revoke_entries}

-- The entry was due, and its token is the current one or confirmed gone.
pub record IsSettled (c : Setup) (v : View) (e : LedgerEntry) (calls : List Call) : Type 0 where
  pub was_scheduled : e.state ≡ scheduled
  pub was_over : e.not_before ≤ v.now
  pub outcome : (e.accessor ≡ v.accessor) ⊎ Gone c e.accessor calls

module _ (c : Setup) (v : View) (a : String) where
  abbrev G : World → Type 0
  G w = Gone c a w.calls

  tell-Keeps_Gone : (k : Call) → Keeps G (tell k)
  unfolding tell
  tell-Keeps_Gone k = record { at = λ w h. inr h }

  after_revoke-Keeps_Gone : (o : Option RevokeError) → Keeps G (after_revoke c v o)
  unfolding after_revoke
  after_revoke-Keeps_Gone none = search (Keeps-bind, Keeps-pure, tell-Keeps_Gone)
  after_revoke-Keeps_Gone (some e) = search (Keeps-bind, Keeps-pure, tell-Keeps_Gone)

  revoke_entry-Keeps_Gone : (e : LedgerEntry) → Keeps G (revoke_entry c v e)
  unfolding revoke_entry
  revoke_entry-Keeps_Gone e = search (
    Keeps-if, Keeps-bind, Keeps-pure, tell-Keeps_Gone, revoke_and_verify-Keeps_Gone,
    after_revoke-Keeps_Gone,
  )

  revoke_entries-Keeps_Gone : (es : List LedgerEntry) → Keeps G (revoke_entries c v es)
  unfolding revoke_entries
  revoke_entries-Keeps_Gone [] = search (Keeps-pure)
  revoke_entries-Keeps_Gone (e ∷ es) =
      Keeps-bind (revoke_entry c v e) _ (revoke_entry-Keeps_Gone e)
        λ d. Keeps-bind (revoke_entries c v es) _ (revoke_entries-Keeps_Gone es) (λ r. Keeps-pure _)

module _ (c : Setup) (v : View) where
  after_revoke-Gone :
      (a : String) (o : Option RevokeError) (w : World)
      → (o ≡ none → Gone c a w.calls)
      → (after_revoke c v o w).0 ≡ true
      → Gone c a (after_revoke c v o w).1.calls
  unfolding after_revoke ◌>>=◌ tell
  after_revoke-Gone a none w g h = inr (g refl)
  after_revoke-Gone a (some e) w g h = cc

  due_of_test :
      (e : LedgerEntry)
      → (not (is_scheduled e.state) || ltb v.now e.not_before) ≡ false
      → (e.state ≡ scheduled) × (e.not_before ≤ v.now)
  due_of_test e t = ground arith

  abbrev early : LedgerEntry → Bool
  early e = not (is_scheduled e.state) || ltb v.now e.not_before

  revoke_entry-IsSettled :
      (e : LedgerEntry) (w : World)
      → (revoke_entry c v e w).0 ≡ true
      → IsSettled c v e (revoke_entry c v e w).1.calls
  unfolding revoke_entry ◌>>=◌
  revoke_entry-IsSettled e w h = elim (Bool-cases (early e)) [
    | inl t ↦ cc (rw t at h)
    | inr t ↦ elim (Bool-cases (e.accessor == v.accessor)) [
      | inl u ↦ record {
        was_scheduled = (due_of_test e t).0;
        was_over = (due_of_test e t).1;
        outcome = inl ((eq_iff e.accessor v.accessor).0 u);
      }
      | inr u ↦ record {
        was_scheduled = (due_of_test e t).0;
        was_over = (due_of_test e t).1;
        outcome = inr (
            rw (t, u)
              (after_revoke-Gone e.accessor (revoke_and_verify c e.accessor w).0
                (revoke_and_verify c e.accessor w).1 (revoke_and_verify-Gone c e.accessor w)
                (rw (t, u) at h)));
      }
    ]
  ]

  abbrev Kept : List LedgerEntry → List Call → LedgerEntry → Type 0
  Kept kept calls e = Some (λ k. k ≡ e) kept ⊎ IsSettled c v e calls

  later-IsSettled :
      (e : LedgerEntry) (es : List LedgerEntry) (w : World)
      → IsSettled c v e w.calls
      → IsSettled c v e (revoke_entries c v es w).1.calls
  later-IsSettled e es w s = record {
    was_scheduled = s.was_scheduled;
    was_over = s.was_over;
    outcome = elim s.outcome [
      | inl p ↦ inl p
      | inr g ↦ inr ((revoke_entries-Keeps_Gone c v e.accessor es).at w g)
    ];
  }

  cons-Kept :
      (d : Bool) (e : LedgerEntry) (kept : List LedgerEntry) (calls : List Call) (x : LedgerEntry)
      → Kept kept calls x
      → Kept (if d then kept else e ∷ kept) calls x
  cons-Kept true e kept calls x k = k
  cons-Kept false e kept calls x (inl s) = inl (inr s)
  cons-Kept false e kept calls x (inr s) = inr s

  head-Kept :
      (d : Bool) (e : LedgerEntry) (kept : List LedgerEntry) (calls : List Call)
      → (d ≡ true → IsSettled c v e calls)
      → Kept (if d then kept else e ∷ kept) calls e
  head-Kept true e kept calls s = inr (s refl)
  head-Kept false e kept calls s = inl (inl refl)

  -- The loop of `revokeDue` over the entries that it is given: every one of them is among those that
  -- the loop keeps, or was scheduled and due and is settled, which means that its accessor is that of
  -- the token the pass looked up, or that Vault has answered that it knows the accessor no longer.
  -- Entries that a cancel request or the settling of a swap takes out do not reach this loop.
  pub revoke_entries-confirmed :
      (es : List LedgerEntry) (w : World)
      → let (r, w') = revoke_entries c v es w in
        All (λ e. Some (λ k. k ≡ e) r.0 ⊎ IsSettled c v e w'.calls) es
  unfolding revoke_entries ◌>>=◌
  revoke_entries-confirmed [] w = tt
  revoke_entries-confirmed (e ∷ es) w =
      let w1 = (revoke_entry c v e w).1 in
      let d = (revoke_entry c v e w).0 in
      let r = (revoke_entries c v es w1).0 in
      let w2 = (revoke_entries c v es w1).1 in
      (
        head-Kept d e r.0 w2.calls (λ t. later-IsSettled e es w1 (revoke_entry-IsSettled e w t)),
        All-map (Kept r.0 w2.calls) (Kept (if d then r.0 else e ∷ r.0) w2.calls)
            (cons-Kept d e r.0 w2.calls) es (revoke_entries-confirmed es w1),
      )
