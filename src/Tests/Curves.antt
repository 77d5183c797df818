-- ===== src/Tests/Curves.antt =====
-- Swaps, powers and updates of rates at concrete inputs.
use solana_psm.Common.{
  ℕ, ◌+◌, ◌*◌, ◌-◌, ◌/◌, ◌^◌, ◌≤◌, ◌<◌, ◌≡◌, refl, ok, none, ◌⊎◌, inr, arith, checked_add,
  checked_sub, checked_mul, checked_div,
}
use solana_psm.Fees.{
  Fees, calculate_fee, trading_fee, owner_trading_fee, pre_trading_fee_amount, pre_fee_amount,
  ceil_div,
}
use solana_psm.Curve.Calculator.{
  a_to_b, b_to_a, floor, ceiling, SwapWithoutFeesResult, TradingTokenResult, map_zero_to_none,
}
use solana_psm.Curve.Priced.{
  ray, swap_at_price, swap_amounts, pool_tokens_to_trading_tokens, trading_tokens_to_pool_tokens,
}
use solana_psm.Curve.Priced.Swap.{swap_at_price-fair, value_in, value_out}
use solana_psm.Curve.Priced.Pool.{
  withdrawn-le-share, deposited-ge-share, issued-le-share, given_worth, given_value,
}
use solana_psm.Curve.ConstantPrice
use solana_psm.Curve.ConstantProduct
use solana_psm.Curve.ConstantProduct.Invariant.{swap-product}
use solana_psm.Curve.RedemptionRate.{
  RedemptionRateCurve, rpow, rpow_loop, rmul, get_conversion_rate, set_rates, check_update,
  chi_limit,
}
use solana_psm.Curve.RedemptionRate.Power.{rpow_exact, rpow-ge-ray}
use solana_psm.Curve.RedemptionRate.Rate.{get_conversion_rate-ge-chi}
use solana_psm.Curve.RedemptionRate.Updates.{
  set_rates-eq-ok, set_rates-cap, Updates-monotone, here, update,
}
use solana_psm.Curve.Base.{swap_without_fees}
use solana_psm.Curve.Charging.{SwapResult, charge, recharge, swap}
use solana_psm.Curve.Charging.Fair.{swap_gains_fees, value_of, fixed}
use solana_psm.Curve.Charging.Within.{swap-le-offer}
use solana_psm.Curve.Charging.Overcharge.{swap_takes_more, two_for_one, tenth_fees}
use solana_psm.Tests.Machine.{exact_math, exact_math-IsSplMath}

-- 100 tokens B for 160 tokens A: 20 of the 100 are fees.
abbrev hundred : SwapResult
hundred = record {
  new_swap_source_amount = 1100;
  new_swap_destination_amount = 840;
  source_amount_swapped = 100;
  destination_amount_swapped = 160;
  trade_fee = 10;
  owner_fee = 10;
}

swap_hundred : swap exact_math two_for_one 100 1000 1000 b_to_a tenth_fees none ≡ ok hundred
unfolding swap charge recharge trading_fee owner_trading_fee calculate_fee swap_without_fees
    ConstantPrice.swap_without_fees swap_at_price swap_amounts map_zero_to_none checked_add
    checked_sub checked_mul checked_div
swap_hundred = refl

swap_gains_fees_example :
    (1100 ≡ 1000 + 100)
    × (840 + 160 ≡ 1000)
    × (10 + 10 < 100)
    × (value_of (2 * ray) b_to_a (1000 + (10 + 10)) 1000 ≤ value_of (2 * ray) b_to_a 1100 840)
swap_gains_fees_example =
    swap_gains_fees exact_math exact_math-IsSplMath two_for_one 100 1000 1000 (2 * ray) b_to_a
      tenth_fees none hundred (fixed (record { token_b_price = 2 * ray }) none) swap_hundred

-- Three tokens A buy one token B at two for one, and one of them is left.
abbrev one_for_two : SwapWithoutFeesResult
one_for_two = record { source_amount_swapped = 2; destination_amount_swapped = 1 }

swap_three : swap_at_price exact_math (2 * ray) 3 a_to_b ≡ ok one_for_two
unfolding swap_at_price swap_amounts map_zero_to_none
swap_three = refl

swap_at_price-fair_example :
    (2 ≤ 3)
    × (0 < 2)
    × (0 < 1)
    × (value_out (2 * ray) a_to_b one_for_two ≤ value_in (2 * ray) a_to_b one_for_two)
swap_at_price-fair_example =
    swap_at_price-fair exact_math exact_math-IsSplMath (2 * ray) 3 a_to_b one_for_two swap_three

rpow_exact_example : rpow exact_math (3 * ray) 5 ≡ ok (3 ^ 5 * ray)
rpow_exact_example =
    rpow_exact exact_math exact_math-IsSplMath 3 5 (omega arith) (omega arith) (omega arith)

-- The rate of two each second.
abbrev doubling : RedemptionRateCurve
doubling = record { max_ssr = 2 * ray; ssr = 2 * ray; rho = 10; chi = ray }

abbrev updated : RedemptionRateCurve
updated = record { max_ssr = 2 * ray; ssr = ray; rho = 13; chi = 7 * ray }

update_runs : set_rates exact_math doubling ray 13 (7 * ray) 20 ≡ ok updated
unfolding set_rates check_update chi_limit rpow rpow_loop rmul checked_sub
update_runs = refl

set_rates-eq-ok_example :
    (updated ≡ record { max_ssr = 2 * ray; ssr = ray; rho = 13; chi = 7 * ray })
    × (13 ≤ 20)
    × (ray ≤ ray)
    × ((doubling.max_ssr ≡ 0) ⊎ (ray ≤ 2 * ray))
    × ((doubling.rho ≡ 0) ⊎ ((10 ≤ 13) × (ray ≤ 7 * ray)))
set_rates-eq-ok_example =
    set_rates-eq-ok exact_math doubling ray 13 (7 * ray) 20 updated update_runs

set_rates-cap_example :
    (power : ℕ) × (rpow exact_math (2 * ray) (13 - 10) ≡ ok power)
    × (7 * ray ≤ power * ray / ray)
    × (ray ≤ 2 * ray)
set_rates-cap_example =
    set_rates-cap exact_math exact_math-IsSplMath doubling ray 13 (7 * ray) 20 updated (omega arith)
      (omega arith) update_runs

Updates-monotone_example : (2 * ray ≡ 2 * ray) × (10 ≤ 13) × (ray ≤ 7 * ray)
Updates-monotone_example =
    Updates-monotone exact_math {c = doubling} {d = updated} (omega arith)
      (update ray 13 (7 * ray) 20 here update_runs)

three_doublings : rpow exact_math (2 * ray) 3 ≡ ok (8 * ray)
unfolding rpow rpow_loop rmul
three_doublings = refl

rpow-ge-ray_example : ray ≤ 8 * ray
rpow-ge-ray_example =
    rpow-ge-ray exact_math exact_math-IsSplMath (2 * ray) 3 (8 * ray) (omega arith) three_doublings

after_three : get_conversion_rate exact_math doubling 13 ≡ ok (8 * ray)
unfolding get_conversion_rate rpow rpow_loop rmul checked_sub
after_three = refl

get_conversion_rate-ge-chi_example : (10 ≤ 13) × (ray ≤ 8 * ray)
get_conversion_rate-ge-chi_example =
    get_conversion_rate-ge-chi exact_math exact_math-IsSplMath doubling 13 (8 * ray) (omega arith)
      after_three

-- 100 tokens against reserves of 1000 and 1000.
abbrev product_swap : SwapWithoutFeesResult
product_swap = record { source_amount_swapped = 99; destination_amount_swapped = 90 }

product_runs : ConstantProduct.swap exact_math 100 1000 1000 ≡ ok product_swap
unfolding ConstantProduct.swap map_zero_to_none checked_add checked_mul checked_sub
product_runs = refl

swap-product_example :
    (99 ≤ 100) × (0 < 90) × (90 ≤ 1000) × (1000 * 1000 ≤ (1000 + 99) * (1000 - 90))
swap-product_example =
    swap-product exact_math exact_math-IsSplMath 100 1000 1000 product_swap (omega arith)
      (omega arith) product_runs

-- The fees of a tenth on the trade alone.
abbrev trade_tenth : Fees
trade_tenth = record tenth_fees { owner_trade_fee_numerator = 0 }

abbrev eighteen : SwapResult
eighteen = record {
  new_swap_source_amount = 1017;
  new_swap_destination_amount = 992;
  source_amount_swapped = 17;
  destination_amount_swapped = 8;
  trade_fee = 1;
  owner_fee = 0;
}

swap_eighteen : swap exact_math two_for_one 18 1000 1000 a_to_b trade_tenth none ≡ ok eighteen
unfolding swap charge recharge trading_fee owner_trading_fee calculate_fee pre_trading_fee_amount
    pre_fee_amount ceil_div swap_without_fees ConstantPrice.swap_without_fees swap_at_price
    swap_amounts map_zero_to_none checked_add checked_sub checked_mul checked_div
swap_eighteen = refl

swap-le-offer_example : eighteen.source_amount_swapped ≤ 18
swap-le-offer_example =
    swap-le-offer exact_math exact_math-IsSplMath two_for_one 18 1000 1000 (2 * ray) a_to_b
      trade_tenth none eighteen (fixed (record { token_b_price = 2 * ray }) none) (inr refl)
      swap_eighteen

swap_takes_more_example :
    swap exact_math two_for_one 19 1000 1000 a_to_b tenth_fees none
    ≡ ok (record {
      new_swap_source_amount = 1020;
      new_swap_destination_amount = 992;
      source_amount_swapped = 20;
      destination_amount_swapped = 8;
      trade_fee = 2;
      owner_fee = 2;
    })
swap_takes_more_example =
    swap_takes_more exact_math exact_math-IsSplMath 1 1000 1000 none (omega arith) (omega arith)
      (omega arith) (omega arith)

-- Seven of 1000 pool tokens, with reserves of 500 and 300.
abbrev seven_out : TradingTokenResult
seven_out = record { token_a_amount = 3; token_b_amount = 2 }

seven_withdrawn : pool_tokens_to_trading_tokens exact_math 7 1000 500 300 floor ≡ ok seven_out
unfolding pool_tokens_to_trading_tokens
seven_withdrawn = refl

withdrawn-le-share_example : (3 * 1000 ≤ 7 * 500) × (2 * 1000 ≤ 7 * 300)
withdrawn-le-share_example =
    withdrawn-le-share exact_math exact_math-IsSplMath 7 1000 500 300 seven_out seven_withdrawn

abbrev seven_in : TradingTokenResult
seven_in = record { token_a_amount = 4; token_b_amount = 3 }

seven_deposited : pool_tokens_to_trading_tokens exact_math 7 1000 500 300 ceiling ≡ ok seven_in
unfolding pool_tokens_to_trading_tokens
seven_deposited = refl

deposited-ge-share_example : (7 * 500 ≤ 4 * 1000) × (7 * 300 ≤ 3 * 1000)
deposited-ge-share_example =
    deposited-ge-share exact_math exact_math-IsSplMath 7 1000 500 300 seven_in (omega arith)
      (omega arith) seven_deposited

-- Ten tokens B at a price of two, for a pool worth 1100.
ten_issued : trading_tokens_to_pool_tokens exact_math (2 * ray) 10 500 300 1000 b_to_a floor ≡ ok 18
unfolding trading_tokens_to_pool_tokens
ten_issued = refl

issued-le-share_example :
    (18 * (300 * (2 * ray) / ray + 500) ≤ 1000 * given_worth (2 * ray) 10 b_to_a)
    × (18 * (300 * (2 * ray) + 500 * ray) ≤ 1000 * given_value (2 * ray) 10 b_to_a + 18 * ray)
issued-le-share_example =
    issued-le-share exact_math exact_math-IsSplMath (2 * ray) 10 500 300 1000 b_to_a 18 ten_issued
