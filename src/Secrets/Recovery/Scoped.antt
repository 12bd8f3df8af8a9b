-- ===== src/Secrets/Recovery/Scoped.antt =====
-- Which token is restored in the place of a recovered one.
use vault_transit_unseal_ope.Base.{
  Bool, List, Option, String, false, if◌then◌else◌, inl, inr, none, refl, some, true, ◌≡◌, ◌⊎◌,
}
use vault_transit_unseal_ope.Base.Exec.{Exec}
use vault_transit_unseal_ope.Base.Exec
use vault_transit_unseal_ope.Secrets.World.{Call, Setup, World, ask}
use vault_transit_unseal_ope.Secrets.Recovery.{
  scoped_token, scopes, scope_if, scoped_or, is_root_token, assumed,
}

module _ (c : Setup) (token : String) where
  -- The token itself, or a scoped token that was made from it, where tokens are managed
  abbrev pub IsScoped : String → Type 0
  IsScoped t =
      (t ≡ token) ⊎ (scopes c ≡ true) × (h : List Call) × (c.env.create_scoped h token ≡ some t)

  scoped_or-IsScoped :
      (h : List Call) (o : Option String)
      → scopes c ≡ true
      → c.env.create_scoped h token ≡ o
      → IsScoped (scoped_or token o)
  scoped_or-IsScoped h none s e = inl refl
  scoped_or-IsScoped h (some t) s e = inr (s, h, e)

  scope_if-IsScoped :
      (root : Bool) (w : World) → scopes c ≡ true → IsScoped (scope_if c token root w).0
  unfolding scope_if ask Exec.◌>>=◌ Exec.pure
  scope_if-IsScoped true w s = scoped_or-IsScoped w.calls (c.env.create_scoped w.calls token) s refl
  scope_if-IsScoped false w s = inl refl

  if-IsScoped :
      (b : Bool) (w : World)
      → scopes c ≡ b
      → IsScoped
          ((if b
              then Exec.◌>>=◌ (is_root_token c token) (λ root. scope_if c token (assumed root))
              else Exec.pure token)
            w).0
  unfolding Exec.◌>>=◌ Exec.pure
  if-IsScoped true w s =
      scope_if-IsScoped (assumed (is_root_token c token w).0) (is_root_token c token w).1 s
  if-IsScoped false w s = inl refl

  pub scoped_token-IsScoped : (w : World) → IsScoped (scoped_token c token w).0
  unfolding scoped_token
  scoped_token-IsScoped w = if-IsScoped (scopes c) w refl
