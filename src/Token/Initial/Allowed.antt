-- ===== src/Token/Initial/Allowed.antt =====
-- Which tokens the manager may install, back up and revoke, and the rules by which its parts keep to
-- it.
use vault_transit_unseal_ope.Base.{List, Option, String, none, refl, some, true, ◌≡◌, ◌⊎◌}
use vault_transit_unseal_ope.Base.Dict.{Dict}
use vault_transit_unseal_ope.Base.Exec.{Exec, Keeps}
use vault_transit_unseal_ope.Base.Gives.{Any, weaken, Gives, Holds}
use vault_transit_unseal_ope.Base.Text.{trim_space}
use vault_transit_unseal_ope.Base.Try.{
  or_error, wrapped, Result, Try, err, found, ok, or_fail, or_missing,
}
use vault_transit_unseal_ope.Kube.{Secret}
use vault_transit_unseal_ope.Token.Initial.Client.{
  ensure_policy, InitialError, accessor_in, keeping_token, under,
}
use vault_transit_unseal_ope.Token.Initial.Recover.{is_unretired}
use vault_transit_unseal_ope.Token.Initial.Root.{bootstrap_complete}
use vault_transit_unseal_ope.Token.Initial.Scoped.{created, from, validated}
use vault_transit_unseal_ope.Token.Ledger.{read_ledger}
use vault_transit_unseal_ope.Token.Mint.{call_create, call_lookup_self}
use vault_transit_unseal_ope.Token.Trace.{Traced}
use vault_transit_unseal_ope.Token.Tracked.{token_of}
use vault_transit_unseal_ope.Token.World.{
  Auth, Call, Setup, TokenRequest, TokenStatus, Value, VaultError, World, ask, set_status,
  set_token,
}
use vault_transit_unseal_ope.Base.Exec

-- Vault gave the token out when it was asked for a new one.
abbrev pub Created : Setup → Auth → Type 0
Created c auth = (h : List Call) × (q : TokenRequest) × (c.env.create_token h q ≡ ok (some auth))

abbrev pub MintedBy : Setup → String → Type 0
MintedBy c t = (auth : Auth) × Created c auth × (auth.client_token ≡ t)

-- Vault answered the token's lookup of itself.
abbrev pub Accepted : Setup → String → Type 0
Accepted c t = (h : List Call) × (info : Option (Dict Value)) × (c.env.lookup_self h t ≡ ok info)

abbrev pub Fresh : Setup → String → Type 0
Fresh c t = MintedBy c t × Accepted c t

-- The token comes from the backup, Vault accepts it, and the ledger that is written with it does not
-- retire its accessor.
pub record Backed (c : Setup) (s : Secret) : Type 0 where
  pub answered : List Call
  pub backup : String
  pub is_backup : c.env.recover_backup answered ≡ some backup
  pub is_token : trim_space backup ≡ token_of s
  pub asked : List Call
  pub info : Option (Dict Value)
  pub is_accepted : c.env.lookup_self asked (token_of s) ≡ ok info
  pub unretired : is_unretired (read_ledger c s) (accessor_in info) ≡ true

-- A root token goes only after bootstrap, when it was in the admin Secret and a new token is accepted.
pub record MayRevoke (c : Setup) (root : String) : Type 0 where
  pub is_complete : bootstrap_complete c ≡ true
  pub read : List Call
  pub holder : Secret
  pub was_read : c.env.get_secret read ≡ ok holder
  pub is_root : token_of holder ≡ root
  pub successor : String
  pub is_fresh : Fresh c successor

abbrev pub Allowed : Setup → Call → Type 0
Allowed c (Call.update_secret s) = Fresh c (token_of s) ⊎ Backed c s
Allowed c (Call.create_secret s) = MintedBy c (token_of s)
Allowed c (Call.backup t) = MintedBy c t
Allowed c (Call.revoke_self t) = MayRevoke c t
Allowed c _ = Unit {0}

abbrev pub IsFine : Setup → World → Type 0
IsFine c w = Traced (Allowed c) w

module _ {P : Call → Type 0} where
  pub Keeps-set_status : (f : TokenStatus → TokenStatus) → Keeps (Traced P) (set_status f)
  unfolding set_status
  Keeps-set_status f = record { at = λ w t. t }

  pub Gives-under :
      {E A : Type 0} {R : A → Type 0} (t : String) (m : Try World E A)
      → Gives (Traced P) m R
      → Gives (Traced P) (under t m) R
  unfolding under keeping_token set_token Exec.◌>>=◌
  Gives-under t m g = record { at = λ w h. g.at (record w { client_token = t }) h }

-- The client token is `t`.
abbrev pub HasToken : String → World → Type 0
HasToken t w = w.client_token ≡ t

module _ {A : Type 0} {t : String} where
  pub Keeps-ask_token : (k : Call) (answer : List Call → A) → Keeps (HasToken t) (ask k answer)
  unfolding ask
  Keeps-ask_token k answer = record { at = λ w h. h }

  pub Keeps-under_token : (own : String) (m : Exec World A) → Keeps (HasToken t) (under own m)
  unfolding under keeping_token
  Keeps-under_token own m = record { at = λ w h. h }

module _ {A E : Type 0} {P : World → Type 0} where
  pub Keeps-from :
      (f : A → Result InitialError E) (m : Exec World A) → Keeps P m → Keeps P (from f m)
  unfolding from
  Keeps-from f m k = record { at = λ w h. k.at w h }

module _ {E A : Type 0} {P Q : World → Type 0} {R : A → Type 0} where
  pub Gives-both : (m : Try World E A) → Gives P m R → Keeps Q m → Gives (λ w. P w × Q w) m R
  Gives-both m g k = record {
    at = λ w h. let after = g.at w h.0 in ((after.0, k.at w h.1), after.1);
  }

module _ {E A : Type 0} {R Q : A → Type 0} where
  map_result : (r : Result E A) → ((a : A) → R a → Q a) → Holds R r → Holds Q r
  map_result (ok a) f h = f a h
  map_result (err e) f h = tt

module _ {E A : Type 0} {P : World → Type 0} {R Q : A → Type 0} where
  pub Gives-map : (m : Try World E A) → Gives P m R → ((a : A) → R a → Q a) → Gives P m Q
  Gives-map m g f = record {
    at = λ w h. let after = g.at w h in (after.0, map_result (m w).0 f after.1);
  }

module _ (c : Setup) where
  created_from :
      (h : List Call) (q : TokenRequest) (r : Result VaultError (Option Auth))
      → c.env.create_token h q ≡ r
      → Holds (Created c) (created r)
  created_from h q (err e) p = tt
  created_from h q (ok none) p = tt
  created_from h q (ok (some auth)) p = (h, q, p)

  pub create-Gives :
      (q : TokenRequest) → Gives (IsFine c) (from created (call_create c q)) (Created c)
  unfolding from call_create ask
  create-Gives q = record { at = λ w t. ((tt, t), created_from w.calls q _ refl) }

  abbrev Answered : String → Dict Value → Type 0
  Answered t info = (h : List Call) × (c.env.lookup_self h t ≡ ok (some info))

  validated_from :
      (h : List Call) (t : String) (r : Result VaultError (Option (Dict Value)))
      → c.env.lookup_self h t ≡ r
      → Holds (Answered t) (validated r)
  validated_from h t (err e) p = tt
  validated_from h t (ok none) p = tt
  validated_from h t (ok (some info)) p = (h, p)

  pub validate-Gives :
      (own t : String)
      → Gives (IsFine c) (from validated (under own (under t (call_lookup_self c)))) (Answered t)
  unfolding from call_lookup_self ask under keeping_token set_token Exec.◌>>=◌
  validate-Gives own t = record { at = λ w k. ((tt, k), validated_from w.calls t _ refl) }

  answered_from :
      {E A : Type 0} (e : E) (h : List Call) (answer : List Call → Option A) (r : Option A)
      → answer h ≡ r
      → Holds (λ a. (h : List Call) × (answer h ≡ some a)) (found e r)
  answered_from e h answer none p = tt
  answered_from e h answer (some a) p = (h, p)

  pub ask-Gives :
      {E A : Type 0} (e : E) (k : Call) (answer : List Call → Option A)
      → Allowed c k
      → Gives (IsFine c) (or_missing e (ask k answer)) (λ a. (h : List Call) × (answer h ≡ some a))
  unfolding or_missing ask
  ask-Gives e k answer a = record { at = λ w t. ((a, t), answered_from e w.calls answer _ refl) }

  read_from :
      {E F A : Type 0} (f : F → E) (h : List Call) (answer : List Call → Result F A)
      (r : Result F A)
      → answer h ≡ r
      → Holds (λ a. (h : List Call) × (answer h ≡ ok a)) (wrapped f r)
  read_from f h answer (ok a) p = (h, p)
  read_from f h answer (err e) p = tt

  pub read-Gives :
      {E F A : Type 0} (f : F → E) (k : Call) (answer : List Call → Result F A)
      → Allowed c k
      → Gives (IsFine c) (or_fail f (ask k answer)) (λ a. (h : List Call) × (answer h ≡ ok a))
  unfolding or_fail ask
  read-Gives f k answer a = record { at = λ w t. ((a, t), read_from f w.calls answer _ refl) }

  pub policy-Gives : Gives (IsFine c) (or_error InitialError.policy_failed (ensure_policy c)) Any
  unfolding or_error ensure_policy ask
  policy-Gives = record { at = λ w h. ((tt, h), weaken _) }
