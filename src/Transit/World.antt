-- ===== src/Transit/World.antt =====
-- What pkg/transit calls: the transit Vault, as functions of the history of calls, as in Token/World.antt.
use vault_transit_unseal_ope.Base.{List, Option, String, ◌∷◌}
use vault_transit_unseal_ope.Base.Dict.{Dict}
use vault_transit_unseal_ope.Base.Exec.{Exec}
use vault_transit_unseal_ope.Base.Try.{Result}
use vault_transit_unseal_ope.Token.World.{VaultError}

-- A mount: its type, and the version in its options
pub record Mount : Type 0 where
  pub type : String
  pub version : Option String

-- The data of an answered read: the token, if the data is a map, and if its token is a text
pub data KvAnswer : Type 0 where
  nothing malformed tokenless : KvAnswer
  held : String → KvAnswer

-- The options of a tune answer: none where they are no map, else their version
pub data Tuned : Type 0 where
  no_answer no_options : Tuned
  options : Option String → Tuned

pub data Call : Type 0 where
  list_mounts read_tune mount : Call
  read delete : String → Call
  write : String → String → Call

pub record Env : Type 0 where
  pub list_mounts : List Call → Result VaultError (Dict Mount)
  pub read_tune : List Call → Tuned
  pub mount : List Call → Option VaultError
  pub read : List Call → String → Result VaultError KvAnswer
  -- a path, the token and its metadata
  pub write : List Call → String → String → Option VaultError
  pub delete : List Call → String → Option VaultError
  pub error_text : VaultError → String

pub record World : Type 0 where
  pub calls : List Call

unfoldable pub ask : {A : Type 0} → Call → (List Call → A) → Exec World A
ask k answer w = (answer w.calls, record w { calls = k ∷ w.calls })
