-- ===== src/Token/Ledger/Confirmed.antt =====
-- What `revoke_and_verify` confirms: that Vault no longer knows the accessor.
use vault_transit_unseal_ope.Base.{
  String, Bool, true, false, Option, none, some, List, [], ◌∷◌, ◌≡◌, ◌⊎◌, inl, inr, refl, arith,
}
use vault_transit_unseal_ope.Base.Exec.{Keeps, Keeps-pure, Keeps-bind, pure, ◌>>=◌}
use vault_transit_unseal_ope.Token.World.{VaultError, Setup, Call, lookup_accessor, World, ask}
use vault_transit_unseal_ope.Token.Ledger.{
  is_invalid_accessor, verdict, call_revoke, call_lookup_accessor, verify, revoke_and_verify,
}

-- Vault answered that it knows no such accessor.
abbrev pub is_gone : Option VaultError → Bool
is_gone none = false
is_gone (some e) = is_invalid_accessor e

-- The call was a lookup of the accessor that Vault answered so.
abbrev pub Confirms : Setup → String → Call → List Call → Type 0
Confirms c a (lookup_accessor t b) h = (b ≡ a) × (is_gone (c.env.lookup_accessor h b) ≡ true)
Confirms c a _ h = ⊥

abbrev pub Gone : Setup → String → List Call → Type 0
Gone c a [] = ⊥
Gone c a (k ∷ h) = Confirms c a k h ⊎ Gone c a h

module _ (c : Setup) (a : String) where
  abbrev G : World → Type 0
  G w = Gone c a w.calls

  call_revoke-Keeps_Gone : (b : String) → Keeps G (call_revoke c b)
  unfolding call_revoke ask
  call_revoke-Keeps_Gone b = record { at = λ w h. inr h }

  call_lookup_accessor-Keeps_Gone : (b : String) → Keeps G (call_lookup_accessor c b)
  unfolding call_lookup_accessor ask
  call_lookup_accessor-Keeps_Gone b = record { at = λ w h. inr h }

  verify-Keeps_Gone : (b : String) (o : Option VaultError) → Keeps G (verify c b o)
  unfolding verify
  verify-Keeps_Gone b none = search (Keeps-bind, Keeps-pure, call_lookup_accessor-Keeps_Gone)
  verify-Keeps_Gone b (some e) = search (Keeps-pure)

  pub revoke_and_verify-Keeps_Gone : (b : String) → Keeps G (revoke_and_verify c b)
  unfolding revoke_and_verify
  revoke_and_verify-Keeps_Gone b = search (Keeps-bind, call_revoke-Keeps_Gone, verify-Keeps_Gone)

  verdict-gone : (o : Option VaultError) → verdict o ≡ none → is_gone o ≡ true
  verdict-gone none h = cc
  verdict-gone (some e) h = ground arith

  verify-Gone :
      (o : Option VaultError) (w : World)
      → (verify c a o w).0 ≡ none
      → Gone c a (verify c a o w).1.calls
  unfolding verify call_lookup_accessor ask ◌>>=◌ pure
  verify-Gone none w h = inl (refl, verdict-gone (c.env.lookup_accessor w.calls a) h)
  verify-Gone (some e) w h = cc

  -- Only a confirmed revocation returns no error.
  pub revoke_and_verify-Gone :
      (w : World) → (revoke_and_verify c a w).0 ≡ none → Gone c a (revoke_and_verify c a w).1.calls
  unfolding revoke_and_verify ◌>>=◌
  revoke_and_verify-Gone w h = verify-Gone _ _ h
