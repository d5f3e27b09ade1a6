-- ===== src/Auth/LoginGuard/Penalty.antt =====
-- The penalty is the doubled base delay under the cap.
use native.Mathlib.Nat.{pow-suc, mul_assoc, mul_comm}
use nexspence_demo.Prelude.{
  ap, arith, if◌then◌else◌, leb, min, suc, zero, ℕ, ◌*◌, ◌-◌, ◌<◌, ◌^◌, ◌≡◌, ◌≤◌,
}
use nexspence_demo.Auth.LoginGuard.{Policy, double, escalate, penalty}

pow_pos : (n : ℕ) → 1 ≤ 2 ^ n
pow_pos zero = omega arith
pow_pos (suc n) = rw pow-suc (omega (arith, pow_pos n))

doubled : (d : ℕ) → d < 2 ^ 62 → double d ≡ d * 2
unfolding double
doubled d h = omega arith

regroup : (d n : ℕ) → d * 2 ^ suc n ≡ d * 2 * 2 ^ n
regroup d n = rw (pow-suc, mul_comm (2 ^ n) 2, mul_assoc)

grown : (d n : ℕ) → d * 2 ≤ d * 2 * 2 ^ n
grown d n = grind (arith, pow_pos n)

escalate-eq-min :
    (n most d : ℕ) → most < 2 ^ 62 → d < 2 ^ 62 → escalate n most d ≡ min most (d * 2 ^ n)
unfolding escalate
escalate-eq-min zero most d hc hd = ground arith
escalate-eq-min (suc n) most d hc hd =
    rw (doubled d hd) (ground (arith, escalate-eq-min n most (d * 2), regroup d n, grown d n))

-- For a policy whose delays are below 2^62 ns (146 years) there is no overflow: up to the
-- threshold the penalty is 0, and the k-th failure above it costs baseDelay * 2^(k-1), at most
-- maxDelay.
pub penalty-eq-min :
    (p : Policy) (failures : ℕ)
    → p.base_delay < 2 ^ 62
    → p.max_delay < 2 ^ 62
    → penalty p failures ≡ (
        if leb failures p.threshold
        then 0
        else min p.max_delay (p.base_delay * 2 ^ (failures - p.threshold - 1)))
unfolding penalty
penalty-eq-min p failures hb hm =
    ap (λ k. if leb failures p.threshold then 0 else k)
      (escalate-eq-min (failures - p.threshold - 1) p.max_delay p.base_delay hm hb)
