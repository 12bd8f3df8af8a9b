-- ===== src/Token/Rotate/Gate.antt =====
-- When a pass may mint a token.
use vault_transit_unseal_ope.Base.{
  String, Bool, true, false, not, ◌&&◌, ◌||◌, Option, none, ◌≤◌, ◌<◌, ◌≡◌, ◌⊎◌, inl, inr, arith,
  any, All, length, ltb, leb, ◌==◌, if◌then◌else◌, if_cases, ltb_false→le,
}
use vault_transit_unseal_ope.Base.Text.{trim_space}
use vault_transit_unseal_ope.Base.Exec.{gets, Exec, Keeps, pure, ◌>>=◌, ◌>>◌}
use vault_transit_unseal_ope.Kube.{Instant, ℤ, younger_than, text_at}
use vault_transit_unseal_ope.Token.World.{Call, create_token, Setup, tell}
use vault_transit_unseal_ope.Token.Ledger.{ledger_full, rotate_now_annotation}
use vault_transit_unseal_ope.Token.Backoff.{backoff_until}
use vault_transit_unseal_ope.Token.Pass.{Pass, View, RotateError, is_unresolved, skipped, on_world}
use vault_transit_unseal_ope.Token.Rotate.{
  is_external, quiet, gate_backoff, gate_ledger, gate_owner, is_forced, rotate_if_due,
}
use vault_transit_unseal_ope.Token.Trace.{PassTraced, trace_rules}

-- The call mints no token.
abbrev pub IsNoMint : Call → Type 0
IsNoMint (create_token t q) = ⊥
IsNoMint _ = Unit {0}

-- The operator owns the credential, no swap is unresolved, the ledger has room for two entries
-- more, and no backoff is running.
pub record IsFree (c : Setup) (v : View) (p : Pass) : Type 0 where
  pub is_enabled : c.tm.enabled ≡ true
  pub is_owned : is_external c.tm.strategy ≡ false
  pub is_settled : any (λ e. is_unresolved e.state) p.ledger ≡ false
  pub has_room : length p.ledger < ledger_full
  pub is_rested : backoff_until c p.world p.secret ≤ v.now

-- The value of the rotate-now annotation
abbrev pub request : Pass → String
request p = trim_space (text_at p.secret.annotations rotate_now_annotation)

-- Rotation is forced, or is scheduled and the token is old enough.
abbrev pub IsAsked : Setup → View → Instant → ℤ → Pass → Type 0
IsAsked c v created period p =
    (is_forced (request p) ≡ true)
    ⊎ ((c.tm.auto_rotate ≡ true) × (younger_than v.now created period ≡ false))

abbrev stop : Exec Pass (Option RotateError)
stop = do skipped; pure {A = Option RotateError} none

module _ (c : Setup) (v : View) where
  quiet-IsNoMint : (f : Bool) → Keeps (PassTraced IsNoMint) (quiet c v f)
  unfolding quiet
  quiet-IsNoMint f = search (trace_rules, tt)

  stop-IsNoMint : Keeps (PassTraced IsNoMint) stop
  stop-IsNoMint = search (trace_rules, tt)

  gate_backoff-gated :
      (f : Bool) (s : String) (p : Pass)
      → All IsNoMint p.calls
      → (backoff_until c p.world p.secret ≤ v.now) ⊎ All IsNoMint (gate_backoff c v f s p).1.calls
  unfolding gate_backoff ◌>>=◌
  gate_backoff-gated f s p h =
      if_cases (λ m. (backoff_until c p.world p.secret ≤ v.now) ⊎ All IsNoMint (m p).1.calls)
        (ltb v.now (backoff_until c p.world p.secret)) (quiet c v f) _
        (λ t. inr ((quiet-IsNoMint f).at p h)) (λ t. inl (ltb_false→le v.now _ t))

  abbrev Ready : Pass → Type 0
  Ready p =
      (any (λ e. is_unresolved e.state) p.ledger ≡ false)
      × (length p.ledger < ledger_full)
      × (backoff_until c p.world p.secret ≤ v.now)

  gate_ledger-gated :
      (f : Bool) (s : String) (p : Pass)
      → All IsNoMint p.calls
      → Ready p ⊎ All IsNoMint (gate_ledger c v f s p).1.calls
  unfolding gate_ledger ◌>>=◌
  gate_ledger-gated f s p h =
      let Q : Exec Pass (Option RotateError) → Type 0 = λ m. Ready p ⊎ All IsNoMint (m p).1.calls in
      if_cases Q (any (λ e. is_unresolved e.state) p.ledger) stop _
        (λ t. inr (stop-IsNoMint.at p h))
        λ t.
          if_cases Q (leb ledger_full (length p.ledger)) stop (gate_backoff c v f s)
            (λ u. inr (stop-IsNoMint.at p h))
            λ u. elim (gate_backoff-gated f s p h) [
              | inl b ↦ inl (t, ground arith, b)
              | inr n ↦ inr n
            ]

  gate_owner-gated :
      (f : Bool) (s : String) (p : Pass)
      → All IsNoMint p.calls
      → IsFree c v p ⊎ All IsNoMint (gate_owner c v f s p).1.calls
  unfolding gate_owner
  gate_owner-gated f s p h =
      let Q : Exec Pass (Option RotateError) → Type 0 =
        λ m. IsFree c v p ⊎ All IsNoMint (m p).1.calls in
      if_cases Q (not c.tm.enabled) (quiet c v f) _ (λ t. inr ((quiet-IsNoMint f).at p h))
        λ t.
          if_cases Q (is_external c.tm.strategy) (quiet c v f) (gate_ledger c v f s)
            (λ u. inr ((quiet-IsNoMint f).at p h))
            λ u. elim (gate_ledger-gated f s p h) [
              | inl g ↦ inl (record {
                is_enabled = ground arith;
                is_owned = u;
                is_settled = g.0;
                has_room = g.1;
                is_rested = g.2;
              })
              | inr n ↦ inr n
            ]

  abbrev untimely : Instant → ℤ → Pass → Bool
  untimely created period p =
      not (is_forced (request p)) && (not c.tm.auto_rotate || younger_than v.now created period)

  IsAsked-of_test :
      (created : Instant) (period : ℤ) (p : Pass)
      → untimely created period p ≡ false
      → IsAsked c v created period p
  IsAsked-of_test created period p t = ground arith

  abbrev timed : Instant → ℤ → Pass → Exec Pass (Option RotateError)
  timed created period p =
      if untimely created period p
      then pure none
      else gate_owner c v (is_forced (request p)) (request p)

  timed-gated :
      (created : Instant) (period : ℤ) (p : Pass)
      → All IsNoMint p.calls
      → (IsAsked c v created period p × IsFree c v p)
        ⊎ All IsNoMint (timed created period p p).1.calls
  unfolding pure
  timed-gated created period p h =
      if_cases (λ m. (IsAsked c v created period p × IsFree c v p) ⊎ All IsNoMint (m p).1.calls)
        (untimely created period p) (pure none) _ (λ t. inr h)
        λ t. elim (gate_owner-gated (is_forced (request p)) (request p) p h) [
          | inl g ↦ inl (IsAsked-of_test created period p t, g)
          | inr n ↦ inr n
        ]

  -- A token is minted only when rotation is forced, or is scheduled and the token has reached its
  -- age, and only when token management is enabled and not external, no swap is unresolved, the
  -- ledger is below the size at which minting stops, and no backoff is running; otherwise the
  -- rotation step makes no request for a token.
  pub rotate_if_due-gated :
      (created : Instant) (period : ℤ) (p : Pass)
      → All IsNoMint p.calls
      → (IsAsked c v created period p × IsFree c v p)
        ⊎ All IsNoMint (rotate_if_due c v created period p).1.calls
  unfolding rotate_if_due ◌>>=◌ gets pure on_world tell backoff_until
  rotate_if_due-gated created period p h =
      if_cases
        (λ (m : Exec Pass (Unit {0})).
          (IsAsked c v created period p × IsFree c v p)
          ⊎ All IsNoMint (timed created period p (m p).1).1.calls)
        (not (request p == "") && not (is_forced (request p))) skipped (pure tt)
        (λ t. elim (timed-gated created period (skipped p).1 (tt, h)) [
          | inl g ↦ inl (
            g.0,
            record {
              is_enabled = g.1.is_enabled;
              is_owned = g.1.is_owned;
              is_settled = g.1.is_settled;
              has_room = g.1.has_room;
              is_rested = g.1.is_rested;
            },
          )
          | inr n ↦ inr n
        ])
        (λ t. timed-gated created period p h)
