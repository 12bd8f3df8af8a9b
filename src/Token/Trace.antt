-- ===== src/Token/Trace.antt =====
-- Predicates on the calls that an action makes, and the rules by which an action keeps them.
use vault_transit_unseal_ope.Base.{String, List, All}
use vault_transit_unseal_ope.Base.Exec.{Exec, Keeps, Keeps-pure, Keeps-gets, Keeps-if, Keeps-bind}
use vault_transit_unseal_ope.Kube.{Secret}
use vault_transit_unseal_ope.Token.World.{
  LedgerEntry, Call, revoke_accessor, World, ask, tell, set_token,
}
use vault_transit_unseal_ope.Token.Pass.{Pass, on_world, hold}

-- Every revoked accessor satisfies `R`.
abbrev pub Revokes : (String → Type 0) → Call → Type 0
Revokes R (revoke_accessor t a) = R a
Revokes R _ = Unit {0}

abbrev pub Traced : (Call → Type 0) → World → Type 0
Traced P w = All P w.calls

abbrev pub PassTraced : (Call → Type 0) → Pass → Type 0
PassTraced P p = All P p.world.calls

module _ {A : Type 0} {P : Call → Type 0} where
  pub Keeps-ask : (k : Call) (answer : List Call → A) → P k → Keeps (Traced P) (ask k answer)
  unfolding ask
  Keeps-ask k answer h = record { at = λ w t. (h, t) }

  pub Keeps-on_world : (m : Exec World A) → Keeps (Traced P) m → Keeps (PassTraced P) (on_world m)
  unfolding on_world
  Keeps-on_world m h = record { at = λ p t. h.at p.world t }

module _ {P : Call → Type 0} where
  pub Keeps-tell : (k : Call) → P k → Keeps (Traced P) (tell k)
  unfolding tell
  Keeps-tell k h = record { at = λ w t. (h, t) }

  pub Keeps-set_token : (s : String) → Keeps (Traced P) (set_token s)
  unfolding set_token
  Keeps-set_token s = record { at = λ w t. t }

  pub Keeps-hold : (s : Secret) (es : List LedgerEntry) → Keeps (PassTraced P) (hold s es)
  unfolding hold
  Keeps-hold s es = record { at = λ p t. t }

pub ruleset trace_rules = (
  Keeps-pure, Keeps-gets, Keeps-if, Keeps-bind, Keeps-ask, Keeps-on_world, Keeps-tell,
  Keeps-set_token, Keeps-hold,
)
