-- ===== src/Token/Backoff/Wait.antt =====
-- How long a failed rotation waits.
use native.Mathlib.Nat.{pow-suc}
use vault_transit_unseal_ope.Base.{
  ap, ◌∙◌, ltb_false→le, ℕ, zero, suc, ◌-◌, ◌*◌, ◌^◌, ◌≤◌, min, ◌≡◌, arith, ltb, Bool-cases, inl,
  inr,
}
use vault_transit_unseal_ope.Token.Backoff.{backoff_base, backoff_max, double_wait, backoff_wait}

pow_pos : (n : ℕ) → 1 ≤ 2 ^ n
pow_pos zero = omega arith
pow_pos (suc n) = omega (arith, pow_pos n, pow-suc 2 n)

doubled : (w r : ℕ) → w * 2 * 2 ^ r ≡ w * 2 ^ suc r
doubled w r = rw pow-suc (grind arith)

capped : (w r : ℕ) → backoff_max ≤ w → backoff_max ≤ w * 2 ^ suc r
capped w r h = grind (arith, pow_pos (suc r))

-- The loop stops early only where the cap takes over.
min-double_wait : (r w : ℕ) → min (double_wait r w) backoff_max ≡ min (w * 2 ^ r) backoff_max
unfolding double_wait
min-double_wait zero w = omega arith
min-double_wait (suc r) w = elim (Bool-cases (ltb w backoff_max)) [
  | inl t ↦ rw t (min-double_wait r (w * 2) ∙ ap (λ t. min t backoff_max) (doubled w r))
  | inr t ↦
      rw t (omega (arith, ltb_false→le w backoff_max t, capped w r (ltb_false→le w backoff_max t)))
]

-- After `n` failures the next attempt waits one minute, doubled by each failure after the first,
-- and one hour at most: the loop of doublings computes 60 s * 2 ^ (n - 1) cut at 3600 s.
pub backoff_wait-eq-min : (n : ℕ) → backoff_wait n ≡ min (backoff_base * 2 ^ (n - 1)) backoff_max
unfolding backoff_wait
backoff_wait-eq-min n = ground (arith, min-double_wait (n - 1) backoff_base)
