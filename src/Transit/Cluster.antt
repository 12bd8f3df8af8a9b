-- ===== src/Transit/Cluster.antt =====
-- An example of a transit Vault and a resource that is backed up to it.
use vault_transit_unseal_ope.Base.Exec.{Exec}
use vault_transit_unseal_ope.Base.Try
use vault_transit_unseal_ope.Base.Exec
use vault_transit_unseal_ope.Transit.Kv.{
  new_kv_client, ensure_kv_enabled, check_kv_enabled, is_forbidden, write_token,
}
use vault_transit_unseal_ope.Transit.Backup.{connect, backup_token_to_transit}
use vault_transit_unseal_ope.Transit.World.{ask}
use vault_transit_unseal_ope.Transit.Resolver.{resolve_address}
use vault_transit_unseal_ope.Base.Dict
use vault_transit_unseal_ope.Base.{
  List, Option, String, [], arith, none, refl, some, sym, true, ◌∙◌, ◌∷◌, ◌≡◌,
}
use vault_transit_unseal_ope.Base.Dict.{Dict}
use vault_transit_unseal_ope.Token.World.{response}
use vault_transit_unseal_ope.Transit.Kv.Calm.{IsDurable, stored}
use vault_transit_unseal_ope.Base.Try.{Try, ok, err}
use vault_transit_unseal_ope.Transit.World.{held, no_answer, nothing, Env, World, KvAnswer, Call}
use vault_transit_unseal_ope.Transit.Resolver.{Reads, TransitVaultSpec}
use vault_transit_unseal_ope.Transit.Backup.{Setup}

-- A Vault whose mounts cannot be listed by the token, as a transit token may not, and that takes each write
abbrev pub silent : Env
silent = record {
  list_mounts = λ h. err (response 403 []);
  read_tune = λ h. no_answer;
  mount = λ h. none;
  read = λ h p. ok nothing;
  write = λ h p t. none;
  delete = λ h p. none;
  error_text = λ e. "";
}

abbrev pub answer : Option String → KvAnswer
answer none = nothing
answer (some t) = held t

abbrev pub keeping : Env
keeping = record silent { read = λ h p. ok (answer (stored silent p h)) }

same_store : (h : List Call) (p : String) → stored keeping p h ≡ stored silent p h
same_store [] p = refl
same_store (Call.write q t ∷ h) p = ground (arith, same_store h p)
same_store (Call.delete q ∷ h) p = refl
same_store (Call.list_mounts ∷ h) p = same_store h p
same_store (Call.read_tune ∷ h) p = same_store h p
same_store (Call.mount ∷ h) p = same_store h p
same_store (Call.read q ∷ h) p = same_store h p

pub keeping-IsDurable : IsDurable keeping
keeping-IsDurable = record {
  gives = λ h p t e. rw (sym (same_store h p) ∙ e) refl;
  tunes = λ h e. cc;
}

abbrev pub spec : TransitVaultSpec
spec = record {
  address = "https://transit";
  address_from = none;
  secret_name = "transit";
  secret_key = "token";
}

abbrev pub reads : Reads
reads = record {
  config_map = λ ns n. ok (Dict.put Dict.empty "address" "https://transit");
  secret = λ ns n. ok (Dict.put Dict.empty "token" "hvs.transit");
}

abbrev pub setup : Setup
setup = record {
  env = keeping;
  reads = reads;
  spec = spec;
  namespace = "vault";
  name = "vault";
  kv_path = "";
  client_succeeds = true;
}

abbrev pub start : World
start = record { calls = [] }

-- The backup of a token in it
pub backed_up : (backup_token_to_transit setup "hvs.admin" start).0 ≡ ok tt
unfolding backup_token_to_transit connect resolve_address Dict.get Dict.put new_kv_client Try.◌>>=◌
    Try.or_fail ensure_kv_enabled Exec.◌>>=◌ check_kv_enabled ask is_forbidden Try.return
    write_token Try.or_error
backed_up = refl
