-- ===== src/Token/Tracked.antt =====
-- Which tokens the rotation writes to the admin Secret: one that was there, or a new one whose
-- predecessor the same write schedules for revocation.
use vault_transit_unseal_ope.Base.Dict
use vault_transit_unseal_ope.Base.{List, Some, String, [], inl, inr, refl, some, ℕ, ◌∷◌, ◌≡◌, ◌⊎◌}
use vault_transit_unseal_ope.Base.Dict.{Dict}
use vault_transit_unseal_ope.Base.Exec.{
  Exec, Keeps, Keeps-bind, Keeps-gets, Keeps-if, Keeps-pure, Triple, pure, ◌>>=◌,
}
use vault_transit_unseal_ope.Kube.{KubeError, Secret, text_at}
use vault_transit_unseal_ope.Token.Backoff.{get_admin_secret, update, with_version}
use vault_transit_unseal_ope.Token.Ledger.{ledger_annotation, write_ledger}
use vault_transit_unseal_ope.Token.Pass.{Pass, View, hold, on_world}
use vault_transit_unseal_ope.Token.Trace.{
  Keeps-ask, Keeps-set_token, Keeps-tell, PassTraced, Traced,
}
use vault_transit_unseal_ope.Token.World.{
  Call, LedgerEntry, Result, Setup, World, ask, err, ok, scheduled, update_secret,
}

abbrev pub token_of : Secret → String
token_of s = text_at s.data_of "token"

-- The token was on the Secret at the start of the pass, or on one that the API server returned.
abbrev pub IsKnown : Setup → String → String → Type 0
IsKnown c first t =
    (t ≡ first) ⊎ ((h : List Call) × (s : Secret) × (c.env.get_secret h ≡ ok s) × (token_of s ≡ t))

-- The ledger on the Secret schedules the revocation of the token that the pass looked up.
abbrev pub Schedules : Setup → View → Secret → Type 0
Schedules c v s =
    (es : List LedgerEntry) × (Dict.get s.annotations ledger_annotation ≡ some (c.codec.marshal es))
    × Some (λ e. (e.accessor ≡ v.accessor) × (e.state ≡ scheduled)) es

abbrev pub Tracked : Setup → View → String → Call → Type 0
Tracked c v first (update_secret s) = IsKnown c first (token_of s) ⊎ Schedules c v s
Tracked c v first _ = Unit {0}

module _ (c : Setup) (v : View) (first : String) where
  abbrev pub IsGood : Pass → Type 0
  IsGood p = PassTraced (Tracked c v first) p × IsKnown c first (token_of p.secret)

  -- A Secret that was read or written has a known token.
  abbrev pub Knows : Result KubeError Secret → World → Type 0
  Knows (ok s) w = IsKnown c first (token_of s) × Traced (Tracked c v first) w
  Knows (err e) w = Traced (Tracked c v first) w

  read-Knows :
      (h : List Call) (r : Result KubeError Secret) (w : World)
      → c.env.get_secret h ≡ r
      → Traced (Tracked c v first) w
      → Knows r w
  read-Knows h (ok s) w e t = (inr (h, s, e, refl), t)
  read-Knows h (err x) w e t = t

  pub get-Knows : Triple (Traced (Tracked c v first)) (get_admin_secret c) Knows
  unfolding get_admin_secret ask
  get-Knows = record { at = λ w t. read-Knows w.calls (c.env.get_secret w.calls) _ refl (tt, t) }

  written-Knows :
      (s : Secret) (r : Result KubeError ℕ) (w : World)
      → IsKnown c first (token_of s)
      → Traced (Tracked c v first) w
      → Knows (with_version c s r) w
  written-Knows s (ok n) w k t = (k, t)
  written-Knows s (err e) w k t = t

  pub update-Knows :
      (s : Secret)
      → IsKnown c first (token_of s)
      → Triple (Traced (Tracked c v first)) (update c s) Knows
  unfolding update ask ◌>>=◌ pure
  update-Knows s k = record {
    at = λ w t.
        written-Knows s (c.env.update_secret w.calls s)
          (record w { calls = update_secret s ∷ w.calls }) k (inl k, t);
  }

  pub update-Tracked :
      (s : Secret) → Schedules c v s → Keeps (Traced (Tracked c v first)) (update c s)
  unfolding update ask ◌>>=◌ pure
  update-Tracked s d = record { at = λ w t. (inr d, t) }

  pub Good-on_world :
      {A : Type 0} (m : Exec World A)
      → Keeps (Traced (Tracked c v first)) m
      → Keeps IsGood (on_world m)
  unfolding on_world
  Good-on_world m k = record { at = λ p g. (k.at p.world g.0, g.1) }

  pub Good-hold :
      (s : Secret) (es : List LedgerEntry) → IsKnown c first (token_of s) → Keeps IsGood (hold s es)
  unfolding hold
  Good-hold s es k = record { at = λ p g. (g.0, k) }

  -- What an update leaves for the rest of the pass
  abbrev pub PassKnows : Result KubeError Secret → Pass → Type 0
  PassKnows r p = Knows r p.world × IsKnown c first (token_of p.secret)

  pub update-PassKnows :
      (s : Secret) → IsKnown c first (token_of s) → Triple IsGood (on_world (update c s)) PassKnows
  unfolding on_world
  update-PassKnows s k = record { at = λ p g. ((update-Knows s k).at p.world g.0, g.1) }

pub token_of-write_ledger :
    (c : Setup) (s : Secret) (es : List LedgerEntry) → token_of (write_ledger c s es) ≡ token_of s
unfolding write_ledger
token_of-write_ledger c s [] = refl
token_of-write_ledger c s (e ∷ es) = refl

pub IsKnown-write_ledger :
    (c : Setup) (first : String) (s : Secret) (es : List LedgerEntry)
    → IsKnown c first (token_of s)
    → IsKnown c first (token_of (write_ledger c s es))
unfolding write_ledger
IsKnown-write_ledger c first s [] k = k
IsKnown-write_ledger c first s (e ∷ es) k = k

pub ruleset good_rules = (
  Keeps-pure, Keeps-gets, Keeps-if, Keeps-bind, Good-on_world, Keeps-ask, Keeps-tell,
  Keeps-set_token,
)
