-- ===== src/Token/Initial/Root/Lost.antt =====
-- What is left when the scoped token cannot be written over the root token.
use vault_transit_unseal_ope.Base.{◌++◌, [], none, refl, List, String, false, true, ◌==◌, ◌∷◌, ◌≡◌}
use vault_transit_unseal_ope.Base.Dict.{Dict, holds}
use vault_transit_unseal_ope.Base.Exec.{Exec}
use vault_transit_unseal_ope.Kube.{KubeError, Secret, is_conflict}
use vault_transit_unseal_ope.Token.Backoff.{get_admin_secret, update}
use vault_transit_unseal_ope.Token.Initial.Client.{InitialError}
use vault_transit_unseal_ope.Token.Initial.Scoped.Lost.{
  Answers, create_scoped_token-revokes, exchange,
}
use vault_transit_unseal_ope.Token.Tracked.{token_of}
use vault_transit_unseal_ope.Token.World.{VaultError, Auth, Call, Pod, Setup, Value, World, ask}
use vault_transit_unseal_ope.Base.Exec
use vault_transit_unseal_ope.Base.Try.{err, lift, ok, or_fail, return, ◌>>=◌, continue}
use vault_transit_unseal_ope.Token.Initial.Root.{
  bootstrap_complete, replace_root_token, scoped_secret, write_scoped, format_now, require,
  root_marks,
}

-- Documented behaviour of Vault: a token whose revocation was answered without an error is refused
-- from then on.
pub record IsRevocable (c : Setup) (token : String) : Type 0 where
  pub refuses :
      (h later : List Call)
      → c.env.revoke_self h token ≡ none
      → (e : VaultError) × (c.env.lookup_self (later ++ (Call.revoke_self token ∷ h)) token ≡ err e)

module _ (c : Setup) (p : Pod) (own : String) (auth : Auth) (info : Dict Value) where
  -- The calls up to the write, the latest first
  abbrev pub until_write : Secret → List Call → List Call
  until_write s h =
      exchange c p own auth info (token_of s)
        (Call.get_secret c.vtu.pod_namespace c.vtu.admin_token_name ∷ h)

  abbrev pub lost_write : Secret → List Call → Call
  lost_write s h = Call.update_secret (
      scoped_secret c root_marks s auth.client_token
        (c.codec.format_time (c.env.clock (until_write s h)))
        (c.codec.format_time (c.env.clock (Call.clock ∷ until_write s h))))

  -- The calls of the whole run, the latest first
  abbrev pub until_end : Secret → List Call → List Call
  until_end s h = lost_write s h ∷ Call.clock ∷ Call.clock ∷ until_write s h

  lost-run :
      Answers c p own auth info
      → (s : Secret) (e : KubeError) (w : World) → (bootstrap_complete c ≡ true)
      → ((h : List Call) → c.env.get_secret h ≡ ok s)
      → ((token_of s == "") ≡ false)
      → ((h : List Call) (t : Secret) → c.env.update_secret h t ≡ err e)
      → replace_root_token c w
        ≡ (err (InitialError.update_failed e), record w { calls = until_end s w.calls })
  unfolding replace_root_token get_admin_secret require write_scoped format_now update ask ◌>>=◌
      continue or_fail lift return Exec.◌>>=◌ Exec.pure
  lost-run a s e w complete reads holds fails =
      simp (create_scoped_token-revokes c p own auth info a, complete, reads, holds, fails)

  -- After bootstrap is marked complete, when Vault and the API server answer every step, the
  -- revocation of the root token included, and every write of the admin Secret is refused with a
  -- conflict, so that it stores nothing and every read gives the Secret with the root token:
  -- `replaceRootToken` revokes the root token before it tries the write, ends with the conflict and
  -- makes no call after the refused write, so that it neither stores nor backs up the scoped token;
  -- and Vault, where it refuses what it has revoked, refuses the token on the Secret at the end.
  pub replace_root_token-lost :
      Answers c p own auth info
      → (s : Secret) (e : KubeError) (w : World) → (is_conflict e ≡ true)
      → (bootstrap_complete c ≡ true)
      → ((h : List Call) → c.env.get_secret h ≡ ok s)
      → ((token_of s == "") ≡ false)
      → ((h : List Call) (t : Secret) → c.env.update_secret h t ≡ err e)
      → IsRevocable c (token_of s)
      → let (r, w') = replace_root_token c w in
        (r ≡ err (InitialError.update_failed e))
        × (w' ≡ record w { calls = until_end s w.calls })
        × ((x : VaultError) × (c.env.lookup_self w'.calls (token_of s) ≡ err x))
  replace_root_token-lost a s e w refused complete reads holds fails revocable =
      let run = lost-run a s e w complete reads holds fails in
      let (x, dead) =
        revocable.refuses _ (lost_write s w.calls ∷ Call.clock ∷ Call.clock ∷ [])
          (a.revokes _ (token_of s)) in
      rw run (refl, refl, (x, dead))
