-- ===== src/Curve/Priced.antt =====
-- The computations of a curve with a price of token B in token A, scaled by RAY. Both
-- program/src/curve/constant_price.rs and program/src/curve/redemption_rate.rs spell them out, the
-- first at a fixed price, the second at the current conversion rate.
pub mod Swap
pub mod Pool
use solana_psm.Common.{ℕ, Outcome, Calc, ok, nothing, ◌>>=◌, ltb, if◌then◌else◌}
use solana_psm.Math.{SplMath}
use solana_psm.Curve.Calculator.{
  TradeDirection, a_to_b, b_to_a, RoundDirection, floor, ceiling, SwapWithoutFeesResult,
  TradingTokenResult, map_zero_to_none,
}

-- `RAY`
abbrev pub ray : ℕ
ray = 1_000_000_000_000_000_000_000_000_000

module _ (m : SplMath) where
  open m use {
    u256_checked_add, u256_checked_mul, u256_checked_div, u256_as_u128, u256_try_into_u128,
    u256_checked_ceil_div, precise_new,
  }

  -- A value of token B, in token A.
  abbrev pub token_b_value : ℕ → ℕ → Calc ℕ
  token_b_value token_b_price amount = do
    product ← u256_checked_mul amount token_b_price
    u256_checked_div product ray

  -- The amounts that a swap uses and gives, as `U256`.
  unfoldable pub swap_amounts : ℕ → ℕ → TradeDirection → Calc (ℕ × ℕ)
  swap_amounts token_b_price source_amount b_to_a = do
    destination_amount ← token_b_value token_b_price source_amount
    ok (source_amount, destination_amount)
  swap_amounts token_b_price source_amount a_to_b = do
    scaled ← u256_checked_mul source_amount ray
    destination_amount ← u256_checked_div scaled token_b_price
    product ← u256_checked_mul destination_amount token_b_price
    (source_amount_used, divisor) ← u256_checked_ceil_div product ray
    (if ltb source_amount source_amount_used
        then nothing
        else ok (source_amount_used, destination_amount))

  unfoldable pub swap_at_price : ℕ → ℕ → TradeDirection → Calc SwapWithoutFeesResult
  swap_at_price token_b_price source_amount trade_direction = do
    (source_amount_used, destination_amount) ←
        swap_amounts token_b_price source_amount trade_direction
    source ← u256_as_u128 source_amount_used
    source_amount_swapped ← map_zero_to_none source
    destination ← u256_as_u128 destination_amount
    destination_amount_swapped ← map_zero_to_none destination
    ok (record {
      source_amount_swapped = source_amount_swapped;
      destination_amount_swapped = destination_amount_swapped;
    })

  -- One token's share, rounded.
  abbrev pub share : RoundDirection → ℕ → ℕ → ℕ → Calc ℕ
  share floor pool_tokens amount pool_token_supply = do
    product ← u256_checked_mul pool_tokens amount
    u256_checked_div product pool_token_supply
  share ceiling pool_tokens amount pool_token_supply = do
    product ← u256_checked_mul pool_tokens amount
    (quotient, divisor) ← u256_checked_ceil_div product pool_token_supply
    ok quotient

  unfoldable pub pool_tokens_to_trading_tokens :
      ℕ → ℕ → ℕ → ℕ → RoundDirection → Calc TradingTokenResult
  pool_tokens_to_trading_tokens pool_tokens pool_token_supply a b round_direction = do
    share_a ← share round_direction pool_tokens a pool_token_supply
    share_b ← share round_direction pool_tokens b pool_token_supply
    token_a_amount ← u256_as_u128 share_a
    token_b_amount ← u256_as_u128 share_b
    ok (record { token_a_amount = token_a_amount; token_b_amount = token_b_amount })

  -- `match trade_direction` on the given amount.
  abbrev pub given_value_of : ℕ → ℕ → TradeDirection → Calc ℕ
  given_value_of token_b_price source_amount a_to_b = ok source_amount
  given_value_of token_b_price source_amount b_to_a = token_b_value token_b_price source_amount

  unfoldable pub trading_tokens_to_pool_tokens :
      ℕ → ℕ → ℕ → ℕ → ℕ → TradeDirection → RoundDirection → Calc ℕ
  trading_tokens_to_pool_tokens token_b_price source_amount a b pool_supply trade_direction
        round_direction =
      do
        given_value ← given_value_of token_b_price source_amount trade_direction
        b_value ← token_b_value token_b_price b
        total_value ← u256_checked_add b_value a
        pool_tokens ← share round_direction pool_supply given_value total_value
        u256_as_u128 pool_tokens

  unfoldable pub normalized_value_at : ℕ → ℕ → ℕ → Calc ℕ
  normalized_value_at token_b_price swap_token_a_amount swap_token_b_amount = do
    swap_token_b_value ← token_b_value token_b_price swap_token_b_amount
    sum ← u256_checked_add swap_token_a_amount swap_token_b_value
    value ← u256_checked_div sum 2
    value' ← u256_try_into_u128 value
    precise_new value'
