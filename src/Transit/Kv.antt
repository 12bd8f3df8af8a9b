-- ===== src/Transit/Kv.antt =====
-- pkg/transit/kv.go: `KVClient`. The metadata written beside a token is not modelled.
pub mod Calm
pub mod Paths
use vault_transit_unseal_ope.Base.Dict
use vault_transit_unseal_ope.Base.{
  Bool, List, Option, String, [], false, if◌then◌else◌, nat_eq, none, not, some, ℕ, ◌&&◌, ◌==◌,
  ◌||◌, ◌∷◌,
}
use vault_transit_unseal_ope.Base.Dict.{Dict}
use vault_transit_unseal_ope.Base.Exec.{Exec}
use vault_transit_unseal_ope.Base.Split.{cut, split, trim_char}
use vault_transit_unseal_ope.Base.Text.{contains, contains_lowered}
use vault_transit_unseal_ope.Token.World.{VaultError, response, transport}
use vault_transit_unseal_ope.Transit.World.{
  Call, Env, KvAnswer, Mount, Tuned, World, ask, malformed, no_answer, no_options, nothing, options,
  held, tokenless,
}
use vault_transit_unseal_ope.Base.Exec
use vault_transit_unseal_ope.Base.{◌++◌}
use vault_transit_unseal_ope.Base.Try.{
  Result, Try, err, ok, or_error, or_fail, return, throw, ◌>>=◌,
}
use text.Mathlib.Text.{starts_with}
use Prim.Native.String

abbrev slash : ℕ
slash = b'/'

-- A path without slashes around it, under the mount `secret`
unfoldable pub under_mount : String → String
under_mount path =
    let p = trim_char slash path in
    if not (starts_with p "secret/") then String.◌++◌ "secret/" p else p

insert_part : String → String → Option (String × String) → String
insert_part part whole none = whole
insert_part part whole (some (base, rest)) =
    String.◌++◌ base (String.◌++◌ "/" (String.◌++◌ part (String.◌++◌ "/" rest)))

-- `getDataPath`
unfoldable pub get_data_path : String → String
unfolding under_mount insert_part
get_data_path path = let p = under_mount path in insert_part "data" p (cut slash p)

-- `getMetadataPath`
unfoldable pub get_metadata_path : String → String
unfolding under_mount insert_part
get_metadata_path path = let p = under_mount path in insert_part "metadata" p (cut slash p)

push_segment : String → List String → List String
push_segment s [] = if s == "" || s == "." then [] else s ∷ []
push_segment s (t ∷ ts) =
    if s == "" || s == "." then t ∷ ts else if s == ".." && not (t == "..") then ts else s ∷ t ∷ ts

-- The stack of `path.Clean`, the last segment first
clean_segments : List String → List String → List String
unfolding push_segment
clean_segments stack [] = stack
clean_segments stack (s ∷ ss) = clean_segments (push_segment s stack) ss

join_segments : List String → String
join_segments [] = "."
join_segments (s ∷ []) = s
join_segments (s ∷ t ∷ ss) = String.◌++◌ (join_segments (t ∷ ss)) (String.◌++◌ "/" s)

-- `BuildTokenBackupPath`
unfoldable pub build_token_backup_path : String → String → String → String
unfolding clean_segments join_segments
build_token_backup_path namespace name custom =
    if not (custom == "")
    then custom
    else join_segments (
        clean_segments [] (
          "vault-transit-unseal" ∷ split slash namespace
          ++ split slash name
          ++ ("admin-token" ∷ [])))

pub data KvError : Type 0 where
  listing mounting writing reading deleting : VaultError → KvError
  not_mounted wrong_version unexpected_format token_absent : KvError
  wrong_type : String → KvError
  -- The options of the tune answer are no map.
  panicked : KvError
  no_address no_token bad_client : KvError

-- `NewKVClient`: whether the library's configuration and client succeed is a parameter.
unfoldable pub new_kv_client : Bool → String → String → Option KvError
new_kv_client succeeds address token =
    if address == ""
    then some no_address
    else if token == ""
    then some no_token
    else if succeeds
    then none
    else some bad_client

is_forbidden_status : VaultError → (String → Bool) → (VaultError → String) → Bool
is_forbidden_status (response status texts) test print = nat_eq status 403
is_forbidden_status transport test print = test (print transport)

mentions : String → Bool
mentions s = contains_lowered s "permission denied" || contains s "403"

-- `isForbidden`, of an error of `CheckKVEnabled`
unfoldable pub is_forbidden : (VaultError → String) → KvError → Bool
unfolding is_forbidden_status mentions
is_forbidden print (listing e) = is_forbidden_status e mentions print
is_forbidden print (wrong_type t) = mentions t
is_forbidden print _ = false

unfoldable pub is_version_two : Option String → Bool
is_version_two none = false
is_version_two (some v) = v == "2"

-- A failure to enable the engine is only logged by the recovery; a panic is not caught.
unfoldable pub logged : Result KvError (Unit {0}) → Result KvError (Unit {0})
logged (ok u) = ok tt
logged (err panicked) = err panicked
logged (err e) = ok tt

module _ (env : Env) where
  abbrev by_tune : Tuned → Result KvError (Unit {0})
  by_tune no_answer = err wrong_version
  by_tune no_options = err panicked
  by_tune (options v) = if is_version_two v then ok tt else err wrong_version

  check_tune : Try World KvError (Unit {0})
  unfolding is_version_two
  check_tune w = let (t, w') = ask Call.read_tune env.read_tune w in (by_tune t, w')

  check_mount : Option Mount → Try World KvError (Unit {0})
  unfolding check_tune
  check_mount none = throw not_mounted
  check_mount (some m) =
      if not (m.type == "kv")
      then throw (wrong_type m.type)
      else if is_version_two m.version
      then return tt
      else check_tune

  -- `CheckKVEnabled`
  unfoldable pub check_kv_enabled : Try World KvError (Unit {0})
  unfolding check_mount
  check_kv_enabled = do
    mounts ← or_fail listing (ask Call.list_mounts env.list_mounts)
    check_mount (Dict.get mounts "secret/")

  unfoldable pub on_checked : Result KvError (Unit {0}) → Try World KvError (Unit {0})
  on_checked (ok u) = return tt
  on_checked (err panicked) = throw panicked
  on_checked (err e) =
      if is_forbidden env.error_text e
      then return tt
      else or_error mounting (ask Call.mount env.mount)

  -- `EnsureKVEnabled`; a panic is not caught.
  unfoldable pub ensure_kv_enabled : Try World KvError (Unit {0})
  unfolding on_checked
  ensure_kv_enabled = Exec.◌>>=◌ check_kv_enabled on_checked

  -- `WriteTokenWithMetadata`, `WriteToken`
  unfoldable pub write_token : String → String → Try World KvError (Unit {0})
  write_token path token =
      let data_path = get_data_path path in
      or_error writing (ask (Call.write data_path token) (λ h. env.write h data_path token))

  abbrev pub token_in : KvAnswer → Result KvError String
  token_in nothing = ok ""
  token_in malformed = err unexpected_format
  token_in tokenless = err token_absent
  token_in (held t) = ok t

  abbrev pub answered : Result VaultError KvAnswer → Result KvError String
  answered (err e) = err (reading e)
  answered (ok a) = token_in a

  -- `ReadToken`, which is empty where there is none
  unfoldable pub read_token : String → Try World KvError String
  read_token path w =
      let data_path = get_data_path path in
      let (a, w') = ask (Call.read data_path) (λ h. env.read h data_path) w in (answered a, w')

  -- `DeleteToken`
  unfoldable pub delete_token : String → Try World KvError (Unit {0})
  delete_token path =
      let metadata_path = get_metadata_path path in
      or_error deleting (ask (Call.delete metadata_path) (λ h. env.delete h metadata_path))
