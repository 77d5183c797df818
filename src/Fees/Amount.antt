-- ===== src/Fees/Amount.antt =====
-- What the fee of an amount is, and how `pre_fee_amount` inverts it.
use solana_psm.Common.{ℕ, ◌+◌, ◌-◌, ◌*◌, ◌/◌, ◌≤◌, ◌<◌, ◌≡◌, ◌⊎◌, max, ok, arith}
use solana_psm.Common.{checked_add, checked_sub, checked_mul, checked_div}
use solana_psm.Common.Division.{ceil, ceil_bounds, mul-div-le_of_le, room_for_fee}
use native.Mathlib.Nat.{le_of_mul-le-mul_right, le_trans, mul-le-mul_left}
use solana_psm.Fees.{Fees, pre_trading_fee_amount, calculate_fee, pre_fee_amount, ceil_div}

-- The two ways in which a fee comes out.
pub calculate_fee-eq-ok :
    (amount n d fee : ℕ)
    → calculate_fee amount n d ≡ ok fee
    → ((fee ≡ 0) × ((n ≡ 0) ⊎ (amount ≡ 0)))
      ⊎ ((fee ≡ max 1 (amount * n / d)) × (0 < n) × (0 < amount) × (0 < d))
unfolding calculate_fee checked_mul checked_div
calculate_fee-eq-ok amount n d fee h = ground arith

pub calculate_fee-le :
    (amount n d fee : ℕ) → n < d → calculate_fee amount n d ≡ ok fee → fee ≤ amount
calculate_fee-le amount n d fee l h =
    ground (arith, calculate_fee-eq-ok amount n d fee h, mul-div-le_of_le amount n d)

pub ceil_div-eq-ok : (a b q : ℕ) → ceil_div a b ≡ ok q → (q ≡ ceil a b) × (0 < b)
unfolding ceil_div checked_add checked_sub checked_div
ceil_div-eq-ok a b q h = ground arith

-- The ways in which the amount before the fee comes out.
pub pre_fee_amount-eq-ok :
    (post n d pre : ℕ)
    → pre_fee_amount post n d ≡ ok pre
    → ((pre ≡ post) × ((n ≡ 0) ⊎ (d ≡ 0)))
      ⊎ ((pre ≡ 0) × (post ≡ 0) × (0 < n) × (n < d))
      ⊎ ((pre ≡ ceil (post * d) (d - n)) × (0 < n) × (n < d) × (0 < post))
unfolding pre_fee_amount checked_mul checked_sub
pre_fee_amount-eq-ok post n d pre h = ground (arith, ceil_div-eq-ok (post * d) (d - n) pre)

-- What is left of the amount that `pre_fee_amount` gives, after the fee that is charged on it, is at
-- least the wanted amount.
pub pre_fee_amount_covers :
    (post n d pre fee : ℕ)
    → pre_fee_amount post n d ≡ ok pre
    → calculate_fee pre n d ≡ ok fee
    → post + fee ≤ pre
pre_fee_amount_covers post n d pre fee h k = ground (
  arith,
  pre_fee_amount-eq-ok post n d pre h,
  calculate_fee-eq-ok pre n d fee k,
  ceil_bounds (post * d) (d - n),
  room_for_fee post pre n d,
)

-- The amount before the fee is at least the one after it.
pub pre_fee_amount-ge : (post n d pre : ℕ) → pre_fee_amount post n d ≡ ok pre → post ≤ pre
pre_fee_amount-ge post n d pre h =
    ground (
      arith,
      pre_fee_amount-eq-ok post n d pre h,
      ceil_bounds (post * d) (d - n),
      grown post pre n d,
    )
  where
    grown : (post pre n d : ℕ) → n < d → post * d ≤ pre * (d - n) → post ≤ pre
    grown post pre n d nd le =
        le_of_mul-le-mul_right (le_trans le (mul-le-mul_left pre (omega arith))) (omega arith)

pub pre_trading_fee_amount-ge :
    (f : Fees) (post pre : ℕ) → pre_trading_fee_amount f post ≡ ok pre → post ≤ pre
unfolding pre_trading_fee_amount checked_mul checked_add
pre_trading_fee_amount-ge f post pre h = ground (
  arith,
  pre_fee_amount-ge post f.owner_trade_fee_numerator f.owner_trade_fee_denominator pre,
  pre_fee_amount-ge post f.trade_fee_numerator f.trade_fee_denominator pre,
  pre_fee_amount-ge post
      (f.trade_fee_numerator * f.owner_trade_fee_denominator
        + f.owner_trade_fee_numerator * f.trade_fee_denominator)
      (f.trade_fee_denominator * f.owner_trade_fee_denominator) pre,
)
