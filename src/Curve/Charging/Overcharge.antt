-- ===== src/Curve/Charging/Overcharge.antt =====
-- A class of swaps that take more than was offered: after the curve has left some of the offered
-- amount unused, the fees are charged anew on a rounded-up amount, and nothing compares the sum
-- with the offer.
use solana_psm.Common.{
  ℕ, ◌+◌, ◌-◌, ◌*◌, ◌/◌, ◌^◌, ◌≤◌, ◌<◌, ◌≡◌, ok, Option, arith, u128_mod, checked_add, checked_sub,
  checked_mul, checked_div,
}
use solana_psm.Common.Division.{ceil}
use solana_psm.Fees.{
  Fees, calculate_fee, trading_fee, owner_trading_fee, pre_fee_amount, ceil_div,
  pre_trading_fee_amount,
}
use solana_psm.Math.{SplMath, IsSplMath}
use solana_psm.Curve.Calculator.{a_to_b, map_zero_to_none}
use solana_psm.Curve.Priced.{swap_at_price, swap_amounts, ray}
use solana_psm.Curve.ConstantPrice.{swap_without_fees}
use solana_psm.Curve.Base.{SwapCurve, constant_price, price}
use solana_psm.Curve.Base
use solana_psm.Curve.Charging.{Charged, charge, recharge, swap}

-- Two fees of a tenth each, and two tokens A for one token B.
abbrev pub tenth_fees : Fees
tenth_fees = record {
  trade_fee_numerator = 1;
  trade_fee_denominator = 10;
  owner_trade_fee_numerator = 1;
  owner_trade_fee_denominator = 10;
  owner_withdraw_fee_numerator = 0;
  owner_withdraw_fee_denominator = 0;
  host_fee_numerator = 0;
  host_fee_denominator = 0;
}

abbrev pub two_for_one : SwapCurve
two_for_one = record {
  curve_type = constant_price;
  calculator = price (record { token_b_price = 2 * ray });
}

charge_tenths :
    (a t : ℕ)
    → 10 * t ≤ a
    → a < 10 * t + 10
    → 0 < t
    → t < 2 ^ 60
    → charge tenth_fees a ≡ ok (record { trade = t; owner = t; total = t + t })
unfolding charge trading_fee owner_trading_fee calculate_fee checked_mul checked_div checked_add
charge_tenths a t lo hi t0 t1 = ground arith

recharge_tenths :
    (t : ℕ)
    → 0 < t
    → t < 2 ^ 59
    → (charged : Charged)
    → recharge tenth_fees charged (8 * t + 8) (8 * t + 9)
      ≡ ok (record { trade = t + 1; owner = t + 1; total = t + 1 + (t + 1) })
unfolding recharge pre_trading_fee_amount pre_fee_amount ceil_div checked_mul checked_div
    checked_add checked_sub
recharge_tenths t t0 t1 charged = ground (arith, charge_tenths (10 * t + 10) (t + 1))

module _ (m : SplMath) (laws : IsSplMath m) where
  exchange_tenths :
      (t : ℕ)
      → 0 < t
      → t < 2 ^ 59
      → swap_at_price m (2 * ray) (8 * t + 9) a_to_b
        ≡ ok (record { source_amount_swapped = 8 * t + 8; destination_amount_swapped = 4 * t + 4 })
  unfolding swap_at_price swap_amounts map_zero_to_none
  exchange_tenths t t0 t1 =
      let half : (8 * t + 9) * ray / (2 * ray) ≡ 4 * t + 4 = omega arith in
      let back : ceil ((4 * t + 4) * (2 * ray)) ray ≡ 8 * t + 8 = omega arith in
      ground (
        arith,
        half,
        back,
        laws.checked_mul_lem (8 * t + 9) ray,
        laws.checked_div_lem ((8 * t + 9) * ray) (2 * ray),
        laws.checked_mul_lem (4 * t + 4) (2 * ray),
        laws.u256_ceil_div_lem ((4 * t + 4) * (2 * ray)) ray,
        laws.as_u128_lem (8 * t + 8),
        laws.as_u128_lem (4 * t + 4),
      )

  -- Where token B costs two tokens A and each fee is a tenth, an offer of 10 * t + 9 tokens A takes
  -- 10 * t + 10 of them: one more than was offered. (t is positive and small enough for `u64`, and
  -- the reserves hold the amounts.)
  pub swap_takes_more :
      (t ss sd : ℕ) (timestamp : Option ℕ)
      → 0 < t
      → t < 2 ^ 59
      → ss + (10 * t + 10) < u128_mod
      → 4 * t + 4 ≤ sd
      → swap m two_for_one (10 * t + 9) ss sd a_to_b tenth_fees timestamp
        ≡ ok (record {
          new_swap_source_amount = ss + (10 * t + 10);
          new_swap_destination_amount = sd - (4 * t + 4);
          source_amount_swapped = 10 * t + 10;
          destination_amount_swapped = 4 * t + 4;
          trade_fee = t + 1;
          owner_fee = t + 1;
        })
  unfolding swap Base.swap_without_fees swap_without_fees checked_add checked_sub
  swap_takes_more t ss sd timestamp t0 t1 fits has = ground (
    arith,
    charge_tenths (10 * t + 9) t,
    exchange_tenths t t0 t1,
    recharge_tenths t t0 t1 (record { trade = t; owner = t; total = t + t }),
  )
