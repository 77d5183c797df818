-- ===== src/Common/Powers.antt =====
-- Powers by repeated squaring.
use Prim.Native.Nat.{ℕ, zero, suc, ◌+◌, ◌*◌, ◌/◌, ◌%◌, ◌^◌, ◌≤◌, ◌<◌}
use mathlib.Core.Path.{◌≡◌, ap, ◌∙◌}
use native.Mathlib.Nat.{pow-zero, pow-suc, one-le-pow, pow-succ'}
use native.Mathlib.Omega.{arith}

pub pow-double : (p q : ℕ) → p ^ (q + q) ≡ (p * p) ^ q
pow-double p zero = simp pow-zero
pow-double p (suc q) =
    let split : suc q + suc q ≡ suc (suc (q + q)) = omega arith in
    rw (split, pow-suc p (suc (q + q)), pow-suc p (q + q), pow-suc (p * p) q, pow-double p q)
      (omega arith)

-- One round of repeated squaring.
pub pow-halves_even : (p n : ℕ) → n % 2 ≡ 0 → p ^ n ≡ (p * p) ^ (n / 2)
pow-halves_even p n h =
    let split : n ≡ n / 2 + n / 2 = omega arith in
    ap (λ (t : ℕ). p ^ t) split ∙ pow-double p (n / 2)

pub pow-halves_odd : (p n : ℕ) → n % 2 ≡ 1 → p ^ n ≡ p * (p * p) ^ (n / 2)
pow-halves_odd p n h =
    let split : n ≡ suc (n / 2 + n / 2) = omega arith in
    ap (λ (t : ℕ). p ^ t) split
    ∙ pow-succ' p (n / 2 + n / 2)
    ∙ ap (λ (t : ℕ). p * t) (pow-double p (n / 2))

-- A factor is at most the power.
pub le-pow : (p n : ℕ) → 0 < p → 0 < n → p ≤ p ^ n
le-pow p zero hp hn = absurd (omega arith)
le-pow p (suc n) hp hn = grind (arith, pow-succ' p n, one-le-pow n p hp)
