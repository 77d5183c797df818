-- ===== src/Curve/ConstantPrice.antt =====
-- The constant price curve (program/src/curve/constant_price.rs).
use solana_psm.Common.{ℕ, Outcome, Calc, fail_if, ◌==◌}
use solana_psm.Error.{SwapError}
use solana_psm.Math.{SplMath}
use solana_psm.Curve.Calculator.{TradeDirection, RoundDirection, floor, SwapWithoutFeesResult}
use solana_psm.Curve.Priced

pub record ConstantPriceCurve : Type 0 where
  pub token_b_price : ℕ

unfoldable pub validate : ConstantPriceCurve → Outcome SwapError (Unit {0})
validate c = fail_if (c.token_b_price == 0) SwapError.invalid_curve

module _ (m : SplMath) where
  unfoldable pub swap_without_fees :
      ConstantPriceCurve → ℕ → TradeDirection → Calc SwapWithoutFeesResult
  swap_without_fees c source_amount trade_direction =
      Priced.swap_at_price m c.token_b_price source_amount trade_direction

  unfoldable pub deposit_single_token_type :
      ConstantPriceCurve → ℕ → ℕ → ℕ → ℕ → TradeDirection → Calc ℕ
  deposit_single_token_type c source_amount a b pool_supply trade_direction =
      Priced.trading_tokens_to_pool_tokens m c.token_b_price source_amount a b pool_supply
        trade_direction floor

  unfoldable pub withdraw_single_token_type_exact_out :
      ConstantPriceCurve → ℕ → ℕ → ℕ → ℕ → TradeDirection → RoundDirection → Calc ℕ
  withdraw_single_token_type_exact_out c source_amount a b pool_supply trade_direction
        round_direction =
      Priced.trading_tokens_to_pool_tokens m c.token_b_price source_amount a b pool_supply
        trade_direction round_direction

  unfoldable pub normalized_value : ConstantPriceCurve → ℕ → ℕ → Calc ℕ
  normalized_value c swap_token_a_amount swap_token_b_amount =
      Priced.normalized_value_at m c.token_b_price swap_token_a_amount swap_token_b_amount
