-- ===== src/Curve/Offset.antt =====
-- The offset curve (program/src/curve/offset.rs): a constant product with an offset on token B.
use solana_psm.Common.{ℕ, Outcome, Calc, ◌>>=◌, fail_if, ◌==◌, checked_add}
use solana_psm.Error.{SwapError}
use solana_psm.Math.{SplMath}
use solana_psm.Curve.Calculator.{
  TradeDirection, a_to_b, b_to_a, RoundDirection, floor, SwapWithoutFeesResult, TradingTokenResult,
}
use solana_psm.Curve.ConstantProduct

pub record OffsetCurve : Type 0 where
  pub token_b_offset : ℕ

unfoldable pub pool_tokens_to_trading_tokens :
    OffsetCurve → ℕ → ℕ → ℕ → ℕ → RoundDirection → Calc TradingTokenResult
pool_tokens_to_trading_tokens c pool_tokens pool_token_supply a b round_direction = do
  b' ← checked_add b c.token_b_offset
  ConstantProduct.pool_tokens_to_trading_tokens pool_tokens pool_token_supply a b' round_direction

unfoldable pub validate : OffsetCurve → Outcome SwapError (Unit {0})
validate c = fail_if (c.token_b_offset == 0) SwapError.invalid_curve

module _ (m : SplMath) where
  unfoldable pub swap_without_fees :
      OffsetCurve → ℕ → ℕ → ℕ → TradeDirection → Calc SwapWithoutFeesResult
  swap_without_fees c source_amount swap_source_amount swap_destination_amount a_to_b = do
    destination ← checked_add swap_destination_amount c.token_b_offset
    ConstantProduct.swap m source_amount swap_source_amount destination
  swap_without_fees c source_amount swap_source_amount swap_destination_amount b_to_a = do
    source ← checked_add swap_source_amount c.token_b_offset
    ConstantProduct.swap m source_amount source swap_destination_amount

  unfoldable pub deposit_single_token_type : OffsetCurve → ℕ → ℕ → ℕ → ℕ → TradeDirection → Calc ℕ
  deposit_single_token_type c source_amount a b pool_supply trade_direction = do
    b' ← checked_add b c.token_b_offset
    ConstantProduct.deposit_single_token_type m source_amount a b' pool_supply trade_direction floor

  unfoldable pub withdraw_single_token_type_exact_out :
      OffsetCurve → ℕ → ℕ → ℕ → ℕ → TradeDirection → RoundDirection → Calc ℕ
  withdraw_single_token_type_exact_out c source_amount a b pool_supply trade_direction
        round_direction =
      do
        b' ← checked_add b c.token_b_offset
        ConstantProduct.withdraw_single_token_type_exact_out m source_amount a b' pool_supply
            trade_direction round_direction

  unfoldable pub normalized_value : OffsetCurve → ℕ → ℕ → Calc ℕ
  normalized_value c swap_token_a_amount swap_token_b_amount = do
    b ← checked_add swap_token_b_amount c.token_b_offset
    ConstantProduct.normalized_value m swap_token_a_amount b
