-- ===== src/Common/Division.antt =====
-- Facts about rounded division that the fee, the curve and the pool computations share.
use Prim.Native.Nat.{ℕ, ◌+◌, ◌-◌, ◌*◌, ◌/◌, ◌^◌, ◌≤◌, ◌<◌, max}
use mathlib.Core.Path.{◌≡◌, ap}
use native.Mathlib.Nat.{
  div-le_of_le-mul, le_of_mul-le-mul_right, lt_of_mul-lt-mul_right, div-mul-le_self, lt-div-mul-add,
  mul-le-mul_left, mul-le-mul, lt_of_le_of_lt, le_trans, le-div_iff_mul-le,
}
use native.Mathlib.Omega.{arith}

-- ⌈a / b⌉, for b > 0.
abbrev pub ceil : ℕ → ℕ → ℕ
ceil a b = (a + b - 1) / b

pub ceil_bounds : (a b : ℕ) → 0 < b → (a ≤ ceil a b * b) × (ceil a b * b < a + b)
ceil_bounds a b h = (
  omega (arith, lt-div-mul-add {a = a + b - 1} {b = b} h),
  omega (arith, div-mul-le_self (a + b - 1) b),
)

pub mul-div-le_of_le : (a n d : ℕ) → n ≤ d → a * n / d ≤ a
mul-div-le_of_le a n d h = div-le_of_le-mul d (omega (arith, mul-le-mul_left a h))

-- The least `pre` with `pre - pre * n / d ≥ post` leaves room for the fee, also for the
-- minimum fee of one.
pub room_for_fee :
    (post pre n d : ℕ)
    → n < d
    → 0 < n
    → 0 < post
    → post * d ≤ pre * (d - n)
    → post + max 1 (pre * n / d) ≤ pre
room_for_fee post pre n d nd n0 q0 h = omega (arith, least, rounded)
  where
    whole : d - n + n ≡ d
    whole = omega arith

    p0 : 0 < pre
    p0 = grind arith

    split : pre * (d - n) + pre * n ≡ pre * d
    split = omega (arith, ap (λ (t : ℕ). pre * t) whole)

    pos : 0 < pre * n
    pos = grind arith

    least : post < pre
    least = lt_of_mul-lt-mul_right d (omega (arith, split, pos))

    rounded : post + pre * n / d ≤ pre
    rounded =
        le_of_mul-le-mul_right {k = d} (omega (arith, split, div-mul-le_self (pre * n) d))
          (omega arith)

pub mul-lt-mod : (a b : ℕ) → a < 2 ^ 64 → b < 2 ^ 64 → a * b < 2 ^ 128
mul-lt-mod a b ha hb =
    lt_of_le_of_lt
      (mul-le-mul {n₁ = a} {m₁ = b} {n₂ = 2 ^ 64 - 1} {m₂ = 2 ^ 64 - 1} (omega arith) (omega arith))
      (omega arith)

pub ceil-le : (a b c : ℕ) → 0 < b → a ≤ c * b → ceil a b ≤ c
ceil-le a b c h le =
    let below : ceil a b < c + 1 =
      lt_of_mul-lt-mul_right b (omega (arith, (ceil_bounds a b h).1)) in
    omega arith

pub ceil-pos : (a b : ℕ) → 0 < a → 0 < b → 0 < ceil a b
ceil-pos a b ha hb = grind (arith, ceil_bounds a b hb)

pub div_mono : (a b c : ℕ) → 0 < c → a ≤ b → a / c ≤ b / c
div_mono a b c h le = (le-div_iff_mul-le h).1 (le_trans (div-mul-le_self a c) le)
