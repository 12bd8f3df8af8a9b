-- ===== src/Token/Initial/Ends.antt =====
-- The state that the status is left in by an action that succeeds.
use vault_transit_unseal_ope.Base.{Bool, String, false, if◌then◌else◌, true, ◌≡◌}
use vault_transit_unseal_ope.Base.Exec.{Keeps, Exec}
use vault_transit_unseal_ope.Spec.{TokenState}
use vault_transit_unseal_ope.Token.Initial.Client.{keeping_token, under}
use vault_transit_unseal_ope.Token.World.{TokenStatus, World, set_status, set_token}
use vault_transit_unseal_ope.Base.Exec
use vault_transit_unseal_ope.Base.Try.{Result, Try, attempt, err, lift, ok, ◌>>=◌, continue}

abbrev pub IsIn : TokenState → World → Type 0
IsIn t w = w.status.state ≡ t

-- The state, if the action succeeds
abbrev pub Post : {E A : Type 0} → (World → Type 0) → Result E A × World → Type 0
Post Q (ok a, w) = Q w
Post Q (err e, w) = Unit {0}

pub record Ends {E A : Type 0} (Q : World → Type 0) (m : Try World E A) : Type 0 where
  pub at : (w : World) → Post Q (m w)

Post-weaken :
    {E A : Type 0} {P Q : World → Type 0} (r : Result E A) (w : World)
    → ((v : World) → P v → Q v)
    → Post P (r, w)
    → Post Q (r, w)
Post-weaken (ok a) w f h = f w h
Post-weaken (err e) w f h = tt

module _ {Q : World → Type 0} where
  Post-last :
      {E A B : Type 0} (f : A → Try World E B) (r : Result E A) (w : World)
      → ((a : A) → Ends Q (f a))
      → Post Q (continue f r w)
  unfolding continue Exec.pure
  Post-last f (ok a) w h = (h a).at w
  Post-last f (err e) w h = tt

  pub Ends-last :
      {E A B : Type 0} (m : Try World E A) (f : A → Try World E B)
      → ((a : A) → Ends Q (f a))
      → Ends Q (m >>= f)
  unfolding ◌>>=◌
  Ends-last m f h = record { at = λ w. Post-last f (m w).0 (m w).1 h }

  Post-then :
      {E A B : Type 0} (k : Exec World B) (r : Result E A) (w : World)
      → Keeps Q k
      → Post Q (r, w)
      → Post Q (continue (λ a. lift k) r w)
  unfolding continue lift Exec.pure
  Post-then k (ok a) w h p = h.at w p
  Post-then k (err e) w h p = tt

  -- A last call that keeps what was reached
  pub Ends-then :
      {E A B : Type 0} (m : Try World E A) (k : Exec World B)
      → Ends Q m
      → Keeps Q k
      → Ends Q (m >>= λ a. lift k)
  unfolding ◌>>=◌
  Ends-then m k e h = record { at = λ w. Post-then k (m w).0 (m w).1 h (e.at w) }

  pub Ends-if :
      {E A : Type 0} (b : Bool) (m n : Try World E A)
      → Ends Q m
      → Ends Q n
      → Ends Q (if b then m else n)
  Ends-if true m n f g = f
  Ends-if false m n f g = g

  pub Ends-weaken :
      {E A : Type 0} {P : World → Type 0} (m : Try World E A)
      → Ends P m
      → ((w : World) → P w → Q w)
      → Ends Q m
  Ends-weaken m e f = record { at = λ w. Post-weaken (m w).0 (m w).1 f (e.at w) }

pub Ends-status :
    {E : Type 0} (t : TokenState) (f : TokenStatus → TokenStatus)
    → ((s : TokenStatus) → (f s).state ≡ t)
    → Ends (IsIn t) (lift {E = E} (set_status f))
unfolding lift set_status
Ends-status t f h = record { at = λ w. h w.status }

-- The recovery, if it succeeded, has left `Q`.
abbrev pub Healed : (World → Type 0) → Bool → World → Type 0
Healed Q true w = Q w
Healed Q false w = Unit {0}

pub record Heals (Q : World → Type 0) (m : Exec World Bool) : Type 0 where
  pub at : (w : World) → Healed Q (m w).0 (m w).1

heals_result :
    {E A : Type 0} (Q : World → Type 0) (r : Result E A) (w : World)
    → Post Q (r, w)
    → Healed Q (elim r [ ok a ↦ true | err e ↦ false ]) w
heals_result Q (ok a) w h = h
heals_result Q (err e) w h = tt

pub Heals-attempt :
    {E A : Type 0} {Q : World → Type 0} (m : Try World E A) → Ends Q m → Heals Q (attempt m)
unfolding attempt
Heals-attempt {Q = Q} m e = record { at = λ w. heals_result Q (m w).0 (m w).1 (e.at w) }

Post-under :
    {E A : Type 0} (t : TokenState) (own : String) (r : Result E A) (w : World) (token : String)
    → Post (IsIn t) (r, w)
    → Post (IsIn t) (r, record w { client_token = token })
Post-under t own (ok a) w token h = h
Post-under t own (err e) w token h = tt

pub Ends-under :
    {E A : Type 0} {t : TokenState} (own : String) (m : Try World E A)
    → Ends (IsIn t) m
    → Ends (IsIn t) (under own m)
unfolding under keeping_token set_token Exec.◌>>=◌
Ends-under {t = t} own m e = record {
  at = λ w.
      let v : World = record w { client_token = own } in
      Post-under t own (m v).0 (m v).1 w.client_token (e.at v);
}
