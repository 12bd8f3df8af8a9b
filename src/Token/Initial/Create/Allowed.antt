-- ===== src/Token/Initial/Create/Allowed.antt =====
-- `createInitialToken` stores and backs up only the token that Vault gave out.
use vault_transit_unseal_ope.Base.Dict
use vault_transit_unseal_ope.Base.{
  Bool, List, Option, String, [], arith, none, refl, some, sym, true, ◌∙◌, ◌∷◌, ◌≡◌,
}
use vault_transit_unseal_ope.Base.Dict.{Dict}
use vault_transit_unseal_ope.Base.Exec.{Keeps-bind, Keeps, Keeps-if, Keeps-pure}
use vault_transit_unseal_ope.Base.Gives.{
  Any, Gives, Gives-Any, Gives-bind, Gives-lift, Gives-return, Holds, weaken,
}
use vault_transit_unseal_ope.Kube.{Instant, Secret, text_at-put, ℤ}
use vault_transit_unseal_ope.Token.Initial.Allowed.{
  policy-Gives, Created, IsFine, Keeps-from, Keeps-set_status, MintedBy,
}
use vault_transit_unseal_ope.Token.Initial.Client.{Fallible, InitialError, try_backup_admin_token}
use vault_transit_unseal_ope.Token.Mint.{call_create}
use vault_transit_unseal_ope.Token.Trace.{Keeps-ask}
use vault_transit_unseal_ope.Token.Tracked.{token_of}
use vault_transit_unseal_ope.Token.World.{
  Auth, Call, Dependency, Setup, TokenRequest, VaultError, World, ask,
}
use vault_transit_unseal_ope.Base.Try.{Result, continue, err, lift, ok, or_error, ◌>>=◌}
use vault_transit_unseal_ope.Token.Initial.Create.{
  check_dependencies, create_initial_token, initial_secret, request_initial, on_answer, set_owner,
  create_secret, check_deployments, next_round, ready_verdict, initial_request,
}

module _ (c : Setup) where
  on_answer-IsFine :
      (h : List Call) (q : TokenRequest) (r : Result VaultError (Option Auth)) (w : World)
      → c.env.create_token h q ≡ r
      → IsFine c w
      → IsFine c (on_answer c r w).1 × Holds (Created c) (on_answer c r w).0
  unfolding on_answer
  on_answer-IsFine h q (err e) w p f = (f, tt)
  on_answer-IsFine h q (ok none) w p f = (f, tt)
  on_answer-IsFine h q (ok (some auth)) w p f = (f, (h, q, p))

  request-Gives : (ttl : ℤ) → Gives (IsFine c) (request_initial c ttl) (Created c)
  unfolding request_initial call_create ask lift ◌>>=◌ continue
  request-Gives ttl = record {
    at = λ w h. on_answer-IsFine w.calls (initial_request c ttl) _ _ refl (tt, h);
  }

  owner-Gives : Gives (IsFine c) (set_owner c) Any
  unfolding set_owner
  owner-Gives = record { at = λ w h. ((tt, h), weaken _) }

  stored-Gives :
      (s : Secret)
      → MintedBy c (token_of s)
      → Gives (IsFine c) (or_error InitialError.create_failed (create_secret c s)) Any
  unfolding or_error create_secret ask
  stored-Gives s m = record { at = λ w h. ((m, h), weaken _) }

  pub backup-Keeps : (t : String) → MintedBy c t → Keeps (IsFine c) (try_backup_admin_token c t)
  unfolding try_backup_admin_token
  backup-Keeps t m =
      Keeps-if _ _ _ (Keeps-pure tt)
        (Keeps-bind _ _ (Keeps-ask (Call.backup t) c.env.backup_fails m) (λ r. Keeps-pure tt))

  initial_secret-token :
      (auth : Auth) (now : Instant) → token_of (initial_secret c auth now) ≡ auth.client_token
  unfolding initial_secret
  initial_secret-token auth now =
      text_at-put Dict.empty "token" "token" auth.client_token ∙ ground (arith)

  pub create_initial_token-Gives : Gives (IsFine c) (create_initial_token c) Any
  unfolding create_initial_token
  create_initial_token-Gives = Gives-bind _ _ (policy-Gives c) λ _ _.
      Gives-bind _ _ (Gives-Any _ (Keeps-from _ _ (Keeps-pure _))) λ ttl _.
        Gives-bind _ _ (request-Gives ttl) λ auth made.
          Gives-bind _ _ (Gives-lift _ (Keeps-ask Call.clock c.env.clock tt)) λ now _.
            Gives-bind _ _ owner-Gives λ _ _.
              Gives-bind _ _
                (stored-Gives (initial_secret c auth now)
                  (auth, made, sym (initial_secret-token auth now)))
                λ _ _.
                  Gives-bind _ _ (Gives-lift _ (Keeps-set_status _))
                    λ _ _. Gives-lift _ (backup-Keeps auth.client_token (auth, made, refl))

  next_round-Gives :
      (v : Option (Result InitialError Bool)) (rest : Fallible Bool)
      → Gives (IsFine c) rest Any
      → Gives (IsFine c) (next_round c v rest) Any
  unfolding next_round
  next_round-Gives none rest g = record { at = λ w h. g.at w h }
  next_round-Gives (some r) rest g = record { at = λ w h. (h, weaken r) }

  check_deployments-Gives : (ds : List Dependency) → Gives (IsFine c) (check_deployments c ds) Any
  unfolding check_deployments
  check_deployments-Gives [] = Gives-return true tt
  check_deployments-Gives (d ∷ ds) =
      Gives-bind _ _
        (Gives-lift _ (Keeps-ask (Call.get_deployment d.namespace d.name) c.env.get_deployment tt))
        λ answer _. next_round-Gives (ready_verdict c d answer) _ (check_deployments-Gives ds)

  pub check_dependencies-Gives : Gives (IsFine c) (check_dependencies c) Any
  unfolding check_dependencies
  check_dependencies-Gives = check_deployments-Gives c.tm.deployments
