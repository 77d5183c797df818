-- ===== src/Fees/Limits.antt =====
-- Validated fees: every fee of a `u64` amount exists and is at most the amount.
use solana_psm.Common.{ℕ, ◌*◌, ◌/◌, ◌≤◌, ◌<◌, ◌≡◌, ◌⊎◌, max, ok, arith}
use solana_psm.Common.{u64_mod}
use solana_psm.Common.{checked_mul_ok, checked_div_ok, Calc, ◌||◌, ◌==◌, if◌then◌else◌}
use solana_psm.Common.Division.{mul-lt-mod, mul-div-le_of_le}
use solana_psm.Fees.{
  Fees, IsFees, calculate_fee, validate_fraction, validate, trading_fee, owner_trading_fee,
  owner_withdraw_fee, host_fee,
}

-- A fee fraction is below one, or there is no fee.
abbrev pub IsFraction : ℕ → ℕ → Type 0
IsFraction n d = (n < d) ⊎ ((n ≡ 0) × (d ≡ 0))

pub record IsValid (f : Fees) : Type 0 where
  pub trade : IsFraction f.trade_fee_numerator f.trade_fee_denominator
  pub owner_trade : IsFraction f.owner_trade_fee_numerator f.owner_trade_fee_denominator
  pub owner_withdraw : IsFraction f.owner_withdraw_fee_numerator f.owner_withdraw_fee_denominator
  pub host : IsFraction f.host_fee_numerator f.host_fee_denominator

pub validate_fraction-IsFraction : (n d : ℕ) → validate_fraction n d ≡ ok tt → IsFraction n d
unfolding validate_fraction
validate_fraction-IsFraction n d h = ground arith

-- The fee, outside machine arithmetic.
abbrev pub fee_of : ℕ → ℕ → ℕ → ℕ
fee_of amount n d = if n == 0 || amount == 0 then 0 else max 1 (amount * n / d)

pub calculate_fee-eq-fee_of :
    (amount n d : ℕ)
    → amount < u64_mod
    → n < u64_mod
    → IsFraction n d
    → calculate_fee amount n d ≡ ok (fee_of amount n d)
unfolding calculate_fee
calculate_fee-eq-fee_of amount n d ha hn v =
    ground
      (arith, mul-lt-mod amount n ha hn, checked_mul_ok amount n, checked_div_ok (amount * n) d)

pub fee_of-le : (amount n d : ℕ) → IsFraction n d → fee_of amount n d ≤ amount
fee_of-le amount n d v = ground (arith, mul-div-le_of_le amount n d)

pub validate-IsValid : (f : Fees) → validate f ≡ ok tt → IsValid f
unfolding validate
validate-IsValid f h = ground (
  arith,
  validate_fraction-IsFraction f.trade_fee_numerator f.trade_fee_denominator,
  validate_fraction-IsFraction f.owner_trade_fee_numerator f.owner_trade_fee_denominator,
  validate_fraction-IsFraction f.owner_withdraw_fee_numerator f.owner_withdraw_fee_denominator,
  validate_fraction-IsFraction f.host_fee_numerator f.host_fee_denominator,
)

-- What a fee function of validated fees does on a `u64` amount.
abbrev pub Charges : (ℕ → Calc ℕ) → ℕ → Type 0
Charges fee_function amount = (fee : ℕ) × (fee_function amount ≡ ok fee) × (fee ≤ amount)

-- If `validate` accepts the fees, then on every `u64` amount each of the four fee functions gives
-- a value, and no fee is more than the amount that it is taken from.
pub validate-Charges :
    (f : Fees) (amount : ℕ)
    → IsFees f
    → validate f ≡ ok tt
    → amount < u64_mod
    → Charges (trading_fee f) amount
      × Charges (owner_trading_fee f) amount
      × Charges (owner_withdraw_fee f) amount
      × Charges (host_fee f) amount
unfolding trading_fee owner_trading_fee owner_withdraw_fee host_fee
validate-Charges f amount r h ha =
    let v = validate-IsValid f h in
    (
      charge f.trade_fee_numerator f.trade_fee_denominator r.trade_numerator v.trade,
      charge f.owner_trade_fee_numerator f.owner_trade_fee_denominator r.owner_trade_numerator
          v.owner_trade,
      charge f.owner_withdraw_fee_numerator f.owner_withdraw_fee_denominator
          r.owner_withdraw_numerator v.owner_withdraw,
      charge f.host_fee_numerator f.host_fee_denominator r.host_numerator v.host,
    )
  where
    charge : (n d : ℕ) → n < u64_mod → IsFraction n d → Charges (λ a. calculate_fee a n d) amount
    charge n d hn v =
        (fee_of amount n d, calculate_fee-eq-fee_of amount n d ha hn v, fee_of-le amount n d v)
