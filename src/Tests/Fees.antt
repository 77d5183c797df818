-- ===== src/Tests/Fees.antt =====
-- Fees at concrete inputs.
use solana_psm.Common.{
  ◌+◌, ◌≤◌, ◌≡◌, refl, ok, arith, checked_add, checked_sub, checked_mul, checked_div,
}
use solana_psm.Fees.{
  IsFees, calculate_fee, ceil_div, pre_fee_amount, validate, validate_fraction, trading_fee,
  owner_trading_fee, owner_withdraw_fee, host_fee,
}
use solana_psm.Fees.Amount.{pre_fee_amount_covers}
use solana_psm.Fees.Limits.{Charges, validate-Charges}
use solana_psm.Curve.Charging.Overcharge.{tenth_fees}

pre_runs : pre_fee_amount 16 1 10 ≡ ok 18
unfolding pre_fee_amount ceil_div checked_add checked_sub checked_mul checked_div
pre_runs = refl

fee_runs : calculate_fee 18 1 10 ≡ ok 1
unfolding calculate_fee checked_mul checked_div
fee_runs = refl

pre_fee_amount_covers_example : 16 + 1 ≤ 18
pre_fee_amount_covers_example = pre_fee_amount_covers 16 1 10 18 1 pre_runs fee_runs

pub tenth_fees-IsFees : IsFees tenth_fees
tenth_fees-IsFees = record {
  trade_numerator = omega arith;
  trade_denominator = omega arith;
  owner_trade_numerator = omega arith;
  owner_trade_denominator = omega arith;
  owner_withdraw_numerator = omega arith;
  owner_withdraw_denominator = omega arith;
  host_numerator = omega arith;
  host_denominator = omega arith;
}

tenths_pass : validate tenth_fees ≡ ok tt
unfolding validate validate_fraction
tenths_pass = refl

validate-Charges_example :
    Charges (trading_fee tenth_fees) 55
    × Charges (owner_trading_fee tenth_fees) 55
    × Charges (owner_withdraw_fee tenth_fees) 55
    × Charges (host_fee tenth_fees) 55
validate-Charges_example =
    validate-Charges tenth_fees 55 tenth_fees-IsFees tenths_pass (omega arith)
