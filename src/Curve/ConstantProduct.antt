-- ===== src/Curve/ConstantProduct.antt =====
-- The constant product curve (program/src/curve/constant_product.rs).
pub mod Invariant
pub mod Pool
use solana_psm.Common.{
  ℕ, ◌+◌, Bool, true, false, ◌&&◌, Calc, ok, err, panic, nothing, ◌>>=◌, ltb, if◌then◌else◌,
  checked_add, checked_sub, checked_mul, checked_div, checked_rem,
}
use solana_psm.Math.{SplMath}
use solana_psm.Curve.Calculator.{
  TradeDirection, by_direction, RoundDirection, floor, ceiling, SwapWithoutFeesResult,
  TradingTokenResult, map_zero_to_none,
}

-- A result is rounded up only if it is not zero already.
unfoldable pub round_up : ℕ → ℕ → ℕ
round_up amount remainder = if ltb 0 remainder && ltb 0 amount then amount + 1 else amount

-- The increment cannot wrap: an amount at the top of `u128` leaves no remainder.
unfoldable pub ceiling_amounts : ℕ → ℕ → ℕ → ℕ → ℕ → ℕ → Calc TradingTokenResult
unfolding round_up
ceiling_amounts pool_tokens pool_token_supply a b token_a_amount token_b_amount = do
  product_a ← checked_mul pool_tokens a
  token_a_remainder ← checked_rem product_a pool_token_supply
  product_b ← checked_mul pool_tokens b
  token_b_remainder ← checked_rem product_b pool_token_supply
  ok (record {
    token_a_amount = round_up token_a_amount token_a_remainder;
    token_b_amount = round_up token_b_amount token_b_remainder;
  })

unfoldable pub pool_tokens_to_trading_tokens :
    ℕ → ℕ → ℕ → ℕ → RoundDirection → Calc TradingTokenResult
unfolding ceiling_amounts
pool_tokens_to_trading_tokens pool_tokens pool_token_supply a b round_direction = do
  product_a ← checked_mul pool_tokens a
  token_a_amount ← checked_div product_a pool_token_supply
  product_b ← checked_mul pool_tokens b
  token_b_amount ← checked_div product_b pool_token_supply
  elim round_direction [
    | floor ↦ ok (record { token_a_amount = token_a_amount; token_b_amount = token_b_amount })
    | ceiling ↦ ceiling_amounts pool_tokens pool_token_supply a b token_a_amount token_b_amount
  ]

module _ (m : SplMath) where
  open m use {
    u128_checked_ceil_div, precise_new, precise_add, precise_sub, precise_mul, precise_div,
    precise_sqrt, precise_floor, precise_ceiling, precise_to_imprecise,
  }

  unfoldable pub swap : ℕ → ℕ → ℕ → Calc SwapWithoutFeesResult
  swap source_amount swap_source_amount swap_destination_amount = do
    invariant ← checked_mul swap_source_amount swap_destination_amount
    divisor ← checked_add swap_source_amount source_amount
    (new_destination, new_source) ← u128_checked_ceil_div invariant divisor
    source_amount_swapped ← checked_sub new_source swap_source_amount
    difference ← checked_sub swap_destination_amount new_destination
    destination_amount_swapped ← map_zero_to_none difference
    ok (record {
      source_amount_swapped = source_amount_swapped;
      destination_amount_swapped = destination_amount_swapped;
    })

  -- `pool_tokens.floor()?.to_imprecise()`, or with `ceiling`.
  abbrev to_imprecise : RoundDirection → ℕ → Calc ℕ
  to_imprecise floor pool_tokens = do precise_to_imprecise (← precise_floor pool_tokens)
  to_imprecise ceiling pool_tokens = do precise_to_imprecise (← precise_ceiling pool_tokens)

  unfoldable pub deposit_single_token_type :
      ℕ → ℕ → ℕ → ℕ → TradeDirection → RoundDirection → Calc ℕ
  deposit_single_token_type source_amount a b pool_supply trade_direction round_direction = do
    swap_source_amount ← precise_new (by_direction trade_direction a b)
    source ← precise_new source_amount
    ratio ← precise_div source swap_source_amount
    one ← precise_new 1
    base ← precise_add one ratio
    square_root ← precise_sqrt base
    root ← precise_sub square_root one
    supply ← precise_new pool_supply
    pool_tokens ← precise_mul supply root
    to_imprecise round_direction pool_tokens

  -- `unwrap_or_else(|| PreciseNumber::new(0).unwrap())`
  abbrev or_zero : Calc ℕ → Calc ℕ
  or_zero (ok base) = ok base
  or_zero (err _) = elim (precise_new 0) [ ok zero_number ↦ ok zero_number | _ ↦ panic ]
  or_zero panic = panic

  unfoldable pub withdraw_single_token_type_exact_out :
      ℕ → ℕ → ℕ → ℕ → TradeDirection → RoundDirection → Calc ℕ
  withdraw_single_token_type_exact_out source_amount a b pool_supply trade_direction
        round_direction =
      do
        swap_source_amount ← precise_new (by_direction trade_direction a b)
        source ← precise_new source_amount
        ratio ← precise_div source swap_source_amount
        one ← precise_new 1
        base ← or_zero (precise_sub one ratio)
        square_root ← precise_sqrt base
        root ← precise_sub one square_root
        supply ← precise_new pool_supply
        pool_tokens ← precise_mul supply root
        to_imprecise round_direction pool_tokens

  unfoldable pub normalized_value : ℕ → ℕ → Calc ℕ
  normalized_value swap_token_a_amount swap_token_b_amount = do
    a ← precise_new swap_token_a_amount
    b ← precise_new swap_token_b_amount
    product ← precise_mul a b
    precise_sqrt product
