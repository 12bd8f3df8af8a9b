-- ===== src/Transit/Kv/Calm.antt =====
-- The checks of `EnsureKVEnabled` leave what is stored, and do not panic where a tune answer has options.
use vault_transit_unseal_ope.Base.Dict
use vault_transit_unseal_ope.Base.Dict.{Dict}
use vault_transit_unseal_ope.Base.{
  if_cases, not, refl, Bool, List, Option, String, [], false, if◌then◌else◌, none, some, true, ◌==◌,
  ◌∷◌, ◌≡◌, ◌≢◌,
}
use vault_transit_unseal_ope.Base.Exec.{Exec, Keeps}
use vault_transit_unseal_ope.Token.World.{VaultError}
use vault_transit_unseal_ope.Transit.Kv.{
  bad_client, deleting, is_forbidden, no_address, no_token, not_mounted, panicked, reading,
  token_absent, unexpected_format, writing, is_version_two, by_tune, check_mount, check_tune,
  ensure_kv_enabled, logged, on_checked, KvError, listing, mounting, wrong_type, wrong_version,
  check_kv_enabled,
}
use vault_transit_unseal_ope.Transit.World.{
  Mount, Tuned, ask, no_answer, options, Call, Env, World, held, no_options,
}
use vault_transit_unseal_ope.Base.Exec
use vault_transit_unseal_ope.Base.Try.{
  Result, Try, err, or_error, or_fail, return, throw, unfailed, wrapped, ok, ◌>>=◌, continue,
}

-- What a write leaves: a refused write may have taken effect, so nothing is known after it.
abbrev pub left_by : String → Option VaultError → Option String
left_by t none = some t
left_by t (some e) = none

-- The token that is known to be at the data path
abbrev pub stored : Env → String → List Call → Option String
stored env path [] = none
stored env path (Call.write p t ∷ h) =
    if p == path then left_by t (env.write h p t) else stored env path h
stored env path (Call.delete p ∷ h) = none
stored env path (k ∷ h) = stored env path h

-- The transit Vault gives back what is known to be at a path, and its tune answers have options.
pub record IsDurable (env : Env) : Type 0 where
  pub gives : (h : List Call) (p t : String) → stored env p h ≡ some t → env.read h p ≡ ok (held t)
  pub tunes : (h : List Call) → env.read_tune h ≢ no_options

-- The store keeps what is known, and the call does not panic.
pub record Calm (env : Env) (path : String) (cell : Option String)
    (m : Try World KvError (Unit {0})) : Type 0 where
  pub at :
      (w : World)
      → stored env path w.calls ≡ cell
      → (stored env path (m w).1.calls ≡ cell) × (logged (m w).0 ≡ ok tt)

module _ (env : Env) (durable : IsDurable env) (path : String) (cell : Option String) where
  by_tune-logged : (t : Tuned) → t ≢ no_options → logged (by_tune env t) ≡ ok tt
  unfolding logged
  by_tune-logged no_answer calm = refl
  by_tune-logged no_options calm = absurd (calm refl)
  by_tune-logged (options v) calm =
      if_cases (λ r. logged r ≡ ok tt) (is_version_two v) (ok tt) (err wrong_version) (λ _. refl)
        (λ _. refl)

  check_tune-Calm : Calm env path cell (check_tune env)
  unfolding check_tune ask
  check_tune-Calm = record {
    at = λ w h. (h, by_tune-logged (env.read_tune w.calls) (durable.tunes w.calls));
  }

  if-Calm :
      (test : Bool) (m n : Try World KvError (Unit {0}))
      → Calm env path cell m
      → Calm env path cell n
      → Calm env path cell (if test then m else n)
  if-Calm true m n c d = c
  if-Calm false m n c d = d

  return-Calm : Calm env path cell (return tt)
  unfolding return Exec.pure logged
  return-Calm = record { at = λ w h. (h, refl) }

  check_mount-Calm : (o : Option Mount) → Calm env path cell (check_mount env o)
  unfolding check_mount throw Exec.pure logged
  check_mount-Calm none = record { at = λ w h. (h, refl) }
  check_mount-Calm (some m) =
      if-Calm (not (m.type == "kv")) (throw (wrong_type m.type)) _
        (record { at = λ w h. (h, refl) })
        (if-Calm (is_version_two m.version) (return tt) (check_tune env) return-Calm
          check_tune-Calm)

  on_mounts-Calm :
      (r : Result VaultError (Dict Mount)) (w : World)
      → stored env path w.calls ≡ cell
      → let after = continue (λ m. check_mount env (Dict.get m "secret/")) (wrapped listing r) w in
        (stored env path after.1.calls ≡ cell) × (logged after.0 ≡ ok tt)
  unfolding continue Exec.pure logged
  on_mounts-Calm (err e) w h = (h, refl)
  on_mounts-Calm (ok m) w h = (check_mount-Calm (Dict.get m "secret/")).at w h

  check-Calm : Calm env path cell (check_kv_enabled env)
  unfolding check_kv_enabled ask ◌>>=◌ or_fail
  check-Calm = record { at = λ w h. on_mounts-Calm (env.list_mounts w.calls) _ h }

  mounting-logged : (o : Option VaultError) → logged (unfailed mounting o) ≡ ok tt
  unfolding logged
  mounting-logged none = refl
  mounting-logged (some e) = refl

  mount-Calm : Calm env path cell (or_error mounting (ask Call.mount env.mount))
  unfolding or_error ask
  mount-Calm = record { at = λ w h. (h, mounting-logged (env.mount w.calls)) }

  mounted-Calm :
      (e : KvError)
      → Calm env path cell (
          if is_forbidden env.error_text e
          then return tt
          else or_error mounting (ask Call.mount env.mount))
  mounted-Calm e = if-Calm (is_forbidden env.error_text e) (return tt) _ return-Calm mount-Calm

  on_checked-Calm :
      (r : Result KvError (Unit {0})) (w : World)
      → stored env path w.calls ≡ cell
      → logged r ≡ ok tt
      → let after = on_checked env r w in
        (stored env path after.1.calls ≡ cell) × (logged after.0 ≡ ok tt)
  unfolding on_checked throw Exec.pure logged
  on_checked-Calm (ok u) w h l = return-Calm.at w h
  on_checked-Calm (err (listing d)) w h l = (mounted-Calm (listing d)).at w h
  on_checked-Calm (err (mounting d)) w h l = (mounted-Calm (mounting d)).at w h
  on_checked-Calm (err (writing d)) w h l = (mounted-Calm (writing d)).at w h
  on_checked-Calm (err (reading d)) w h l = (mounted-Calm (reading d)).at w h
  on_checked-Calm (err (deleting d)) w h l = (mounted-Calm (deleting d)).at w h
  on_checked-Calm (err not_mounted) w h l = (mounted-Calm not_mounted).at w h
  on_checked-Calm (err wrong_version) w h l = (mounted-Calm wrong_version).at w h
  on_checked-Calm (err unexpected_format) w h l = (mounted-Calm unexpected_format).at w h
  on_checked-Calm (err token_absent) w h l = (mounted-Calm token_absent).at w h
  on_checked-Calm (err (wrong_type t)) w h l = (mounted-Calm (wrong_type t)).at w h
  on_checked-Calm (err no_address) w h l = (mounted-Calm no_address).at w h
  on_checked-Calm (err no_token) w h l = (mounted-Calm no_token).at w h
  on_checked-Calm (err bad_client) w h l = (mounted-Calm bad_client).at w h
  on_checked-Calm (err panicked) w h l = cc

  pub ensure-Calm : Calm env path cell (ensure_kv_enabled env)
  unfolding ensure_kv_enabled Exec.◌>>=◌
  ensure-Calm = record {
    at = λ w h. let c = check-Calm.at w h in on_checked-Calm (check_kv_enabled env w).0 _ c.0 c.1;
  }
