-- ===== src/Common/Word.antt =====
-- The checked operations of Rust's `u128`, on the numbers that its values stand for.
use Prim.Native.Nat.{ℕ, ◌+◌, ◌-◌, ◌*◌, ◌/◌, ◌%◌, ◌^◌, ◌≤◌, ◌<◌}
use mathlib.Core.Path.{◌≡◌}
use native.Mathlib.Omega.{arith}
use solana_psm.Common.Tests.{ltb, leb, ◌==◌, if◌then◌else◌}
use solana_psm.Common.Exits.{Calc, ok, nothing}

abbrev pub u64_mod : ℕ
u64_mod = 2 ^ 64

abbrev pub u128_mod : ℕ
u128_mod = 2 ^ 128

unfoldable pub checked_add : ℕ → ℕ → Calc ℕ
checked_add a b = if ltb (a + b) u128_mod then ok (a + b) else nothing

unfoldable pub checked_sub : ℕ → ℕ → Calc ℕ
checked_sub a b = if leb b a then ok (a - b) else nothing

unfoldable pub checked_mul : ℕ → ℕ → Calc ℕ
checked_mul a b = if ltb (a * b) u128_mod then ok (a * b) else nothing

unfoldable pub checked_div : ℕ → ℕ → Calc ℕ
checked_div a b = if b == 0 then nothing else ok (a / b)

unfoldable pub checked_rem : ℕ → ℕ → Calc ℕ
checked_rem a b = if b == 0 then nothing else ok (a % b)

-- Each operation that gives a value gives the exact one, and it is in range.
pub checked_add-eq-ok :
    (a b : ℕ) {c : ℕ} → checked_add a b ≡ ok c → (c ≡ a + b) × (a + b < u128_mod)
unfolding checked_add
checked_add-eq-ok a b h = ground arith

pub checked_sub-eq-ok : (a b : ℕ) {c : ℕ} → checked_sub a b ≡ ok c → (c + b ≡ a) × (b ≤ a)
unfolding checked_sub
checked_sub-eq-ok a b h = ground arith

pub checked_mul-eq-ok :
    (a b : ℕ) {c : ℕ} → checked_mul a b ≡ ok c → (c ≡ a * b) × (a * b < u128_mod)
unfolding checked_mul
checked_mul-eq-ok a b h = ground arith

pub checked_div-eq-ok : (a b : ℕ) {c : ℕ} → checked_div a b ≡ ok c → (c ≡ a / b) × (0 < b)
unfolding checked_div
checked_div-eq-ok a b h = ground arith

pub checked_rem-eq-ok : (a b : ℕ) {c : ℕ} → checked_rem a b ≡ ok c → (c ≡ a % b) × (0 < b)
unfolding checked_rem
checked_rem-eq-ok a b h = ground arith

-- And each gives its value when that is in range.
pub checked_add_ok : (a b : ℕ) → a + b < u128_mod → checked_add a b ≡ ok (a + b)
unfolding checked_add
checked_add_ok a b h = ground arith

pub checked_sub_ok : (a b : ℕ) → b ≤ a → checked_sub a b ≡ ok (a - b)
unfolding checked_sub
checked_sub_ok a b h = ground arith

pub checked_mul_ok : (a b : ℕ) → a * b < u128_mod → checked_mul a b ≡ ok (a * b)
unfolding checked_mul
checked_mul_ok a b h = ground arith

pub checked_div_ok : (a b : ℕ) → 0 < b → checked_div a b ≡ ok (a / b)
unfolding checked_div
checked_div_ok a b h = ground arith
