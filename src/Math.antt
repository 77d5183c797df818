-- ===== src/Math.antt =====
-- What the curves use of the crate `spl_math`: the 256-bit integer `U256`, `checked_ceil_div`, and
-- the fixed-point `PreciseNumber`. A `U256` is the number it stands for, and a `PreciseNumber` is its
-- inner value. `SplMath` holds the operations, and `IsSplMath` their documented behaviour.
use solana_psm.Common.{ℕ, ◌+◌, ◌*◌, ◌/◌, ◌%◌, ◌^◌, ◌≤◌, ◌<◌, ◌≡◌, Calc, ok, panic, nothing}
use solana_psm.Common.{ltb, ◌==◌, if◌then◌else◌, u128_mod}
use solana_psm.Common.Division.{ceil}

abbrev pub u256_mod : ℕ
u256_mod = 2 ^ 256

pub record SplMath : Type 0 where
  pub u256_checked_add : ℕ → ℕ → Calc ℕ
  pub u256_checked_mul : ℕ → ℕ → Calc ℕ
  pub u256_checked_div : ℕ → ℕ → Calc ℕ
  -- The operators `*`, `/` and `%`.
  pub u256_mul : ℕ → ℕ → Calc ℕ
  pub u256_div : ℕ → ℕ → Calc ℕ
  pub u256_rem : ℕ → ℕ → Calc ℕ
  pub u256_as_u128 : ℕ → Calc ℕ
  -- `try_into().ok()`
  pub u256_try_into_u128 : ℕ → Calc ℕ
  pub u256_checked_ceil_div : ℕ → ℕ → Calc (ℕ × ℕ)
  pub u128_checked_ceil_div : ℕ → ℕ → Calc (ℕ × ℕ)
  pub precise_new : ℕ → Calc ℕ
  pub precise_add : ℕ → ℕ → Calc ℕ
  pub precise_sub : ℕ → ℕ → Calc ℕ
  pub precise_mul : ℕ → ℕ → Calc ℕ
  pub precise_div : ℕ → ℕ → Calc ℕ
  pub precise_sqrt : ℕ → Calc ℕ
  pub precise_floor : ℕ → Calc ℕ
  pub precise_ceiling : ℕ → Calc ℕ
  pub precise_to_imprecise : ℕ → Calc ℕ

-- The checked operations give `None` out of range, the operators and `as_u128` panic there.
pub record IsSplMath (m : SplMath) : Type 0 where
  pub checked_add_lem :
      (a b : ℕ) → m.u256_checked_add a b ≡ (if ltb (a + b) u256_mod then ok (a + b) else nothing)
  pub checked_mul_lem :
      (a b : ℕ) → m.u256_checked_mul a b ≡ (if ltb (a * b) u256_mod then ok (a * b) else nothing)
  pub checked_div_lem :
      (a b : ℕ) → m.u256_checked_div a b ≡ (if b == 0 then nothing else ok (a / b))
  pub mul_lem : (a b : ℕ) → m.u256_mul a b ≡ (if ltb (a * b) u256_mod then ok (a * b) else panic)
  pub div_lem : (a b : ℕ) → m.u256_div a b ≡ (if b == 0 then panic else ok (a / b))
  pub rem_lem : (a b : ℕ) → m.u256_rem a b ≡ (if b == 0 then panic else ok (a % b))
  pub as_u128_lem : (a : ℕ) → m.u256_as_u128 a ≡ (if ltb a u128_mod then ok a else panic)
  pub try_into_u128_lem :
      (a : ℕ) → m.u256_try_into_u128 a ≡ (if ltb a u128_mod then ok a else nothing)
  -- The quotient is rounded up, and then the divisor is lowered to the least one that gives it.
  -- Nothing is said of a dividend below the divisor.
  pub u256_ceil_div_lem :
      (a b : ℕ) → 0 < b → b ≤ a → m.u256_checked_ceil_div a b ≡ ok (ceil a b, ceil a (ceil a b))
  pub u256_ceil_div_zero : (a : ℕ) → m.u256_checked_ceil_div a 0 ≡ nothing
  pub u128_ceil_div_lem :
      (a b : ℕ) → 0 < b → b ≤ a → m.u128_checked_ceil_div a b ≡ ok (ceil a b, ceil a (ceil a b))
  pub u128_ceil_div_zero : (a : ℕ) → m.u128_checked_ceil_div a 0 ≡ nothing
