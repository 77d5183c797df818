-- ===== src/Curve/Base.antt =====
-- A swap curve with its type (program/src/curve/base.rs), and the methods of the trait
-- `CurveCalculator` at each of the four curves that the trait object can be.
use solana_psm.Common.{ℕ, Bool, true, false, Option, Outcome, Calc, ok, err, ◌==◌, if◌then◌else◌}
use solana_psm.Error.{SwapError, ProgramError, Res}
use solana_psm.Math.{SplMath}
use solana_psm.Curve.Calculator.{
  TradeDirection, RoundDirection, floor, SwapWithoutFeesResult, TradingTokenResult,
  initial_swap_pool_amount, validate_supply as validate_supply_both, validate_supply_a,
}
use solana_psm.Curve.ConstantProduct
use solana_psm.Curve.Priced
use solana_psm.Curve.ConstantPrice
use solana_psm.Curve.ConstantPrice.{ConstantPriceCurve}
use solana_psm.Curve.Offset
use solana_psm.Curve.Offset.{OffsetCurve}
use solana_psm.Curve.RedemptionRate
use solana_psm.Curve.RedemptionRate.{RedemptionRateCurve}

pub data CurveType : Type 0 where
  constant_product : CurveType
  constant_price : CurveType
  offset : CurveType
  redemption_rate_curve : CurveType

-- `curve_type as u8`
unfoldable pub as_u8 : CurveType → ℕ
as_u8 constant_product = 0
as_u8 constant_price = 1
as_u8 offset = 2
as_u8 redemption_rate_curve = 3

-- `CurveType::try_from`
unfoldable pub try_from : ℕ → Res CurveType
try_from curve_type =
    if curve_type == 0
    then ok constant_product
    else if curve_type == 1
    then ok constant_price
    else if curve_type == 2
    then ok offset
    else if curve_type == 3
    then ok redemption_rate_curve
    else err ProgramError.invalid_account_data

pub data Calculator : Type 0 where
  product : Calculator
  price : ConstantPriceCurve → Calculator
  with_offset : OffsetCurve → Calculator
  redemption_rate : RedemptionRateCurve → Calculator

pub record SwapCurve : Type 0 where
  pub curve_type : CurveType
  pub calculator : Calculator

-- The methods of the trait, at each curve.
unfoldable pub new_pool_supply : Calculator → ℕ
new_pool_supply c = initial_swap_pool_amount

unfoldable pub allows_deposits : Calculator → Bool
allows_deposits product = true
allows_deposits (price c) = true
allows_deposits (with_offset c) = false
allows_deposits (redemption_rate c) = true

unfoldable pub validate_supply : Calculator → ℕ → ℕ → Outcome SwapError (Unit {0})
validate_supply product = validate_supply_both
validate_supply (price c) = validate_supply_a
validate_supply (with_offset c) = validate_supply_a
validate_supply (redemption_rate c) = validate_supply_a

module _ (m : SplMath) where
  unfoldable pub swap_without_fees :
      Calculator → ℕ → ℕ → ℕ → TradeDirection → Option ℕ → Calc SwapWithoutFeesResult
  swap_without_fees product source swap_source swap_destination direction timestamp =
      ConstantProduct.swap m source swap_source swap_destination
  swap_without_fees (price c) source swap_source swap_destination direction timestamp =
      ConstantPrice.swap_without_fees m c source direction
  swap_without_fees (with_offset c) source swap_source swap_destination direction timestamp =
      Offset.swap_without_fees m c source swap_source swap_destination direction
  swap_without_fees (redemption_rate c) source swap_source swap_destination direction timestamp =
      RedemptionRate.swap_without_fees m c source direction timestamp

  unfoldable pub pool_tokens_to_trading_tokens :
      Calculator → ℕ → ℕ → ℕ → ℕ → RoundDirection → Calc TradingTokenResult
  pool_tokens_to_trading_tokens product pool_tokens supply a b round =
      ConstantProduct.pool_tokens_to_trading_tokens pool_tokens supply a b round
  pool_tokens_to_trading_tokens (price c) pool_tokens supply a b round =
      Priced.pool_tokens_to_trading_tokens m pool_tokens supply a b round
  pool_tokens_to_trading_tokens (with_offset c) pool_tokens supply a b round =
      Offset.pool_tokens_to_trading_tokens c pool_tokens supply a b round
  pool_tokens_to_trading_tokens (redemption_rate c) pool_tokens supply a b round =
      Priced.pool_tokens_to_trading_tokens m pool_tokens supply a b round

  unfoldable pub deposit_without_fees :
      Calculator → ℕ → ℕ → ℕ → ℕ → TradeDirection → Option ℕ → Calc ℕ
  deposit_without_fees product source a b supply direction timestamp =
      ConstantProduct.deposit_single_token_type m source a b supply direction floor
  deposit_without_fees (price c) source a b supply direction timestamp =
      ConstantPrice.deposit_single_token_type m c source a b supply direction
  deposit_without_fees (with_offset c) source a b supply direction timestamp =
      Offset.deposit_single_token_type m c source a b supply direction
  deposit_without_fees (redemption_rate c) source a b supply direction timestamp =
      RedemptionRate.deposit_single_token_type m c source a b supply direction timestamp

  unfoldable pub withdraw_without_fees :
      Calculator → ℕ → ℕ → ℕ → ℕ → TradeDirection → RoundDirection → Option ℕ → Calc ℕ
  withdraw_without_fees product source a b supply direction round timestamp =
      ConstantProduct.withdraw_single_token_type_exact_out m source a b supply direction round
  withdraw_without_fees (price c) source a b supply direction round timestamp =
      ConstantPrice.withdraw_single_token_type_exact_out m c source a b supply direction round
  withdraw_without_fees (with_offset c) source a b supply direction round timestamp =
      Offset.withdraw_single_token_type_exact_out m c source a b supply direction round
  withdraw_without_fees (redemption_rate c) source a b supply direction round timestamp =
      RedemptionRate.withdraw_single_token_type_exact_out m c source a b supply direction round
        timestamp

  unfoldable pub validate : Calculator → Option ℕ → Outcome SwapError (Unit {0})
  validate product timestamp = ok tt
  validate (price c) timestamp = ConstantPrice.validate c
  validate (with_offset c) timestamp = Offset.validate c
  validate (redemption_rate c) timestamp = RedemptionRate.validate m c timestamp

  unfoldable pub normalized_value : Calculator → ℕ → ℕ → Option ℕ → Calc ℕ
  normalized_value product a b timestamp = ConstantProduct.normalized_value m a b
  normalized_value (price c) a b timestamp = ConstantPrice.normalized_value m c a b
  normalized_value (with_offset c) a b timestamp = Offset.normalized_value m c a b
  normalized_value (redemption_rate c) a b timestamp =
      RedemptionRate.normalized_value m c a b timestamp

-- `impl Default for SwapCurve`
unfoldable pub default_curve : SwapCurve
default_curve = record { curve_type = constant_product; calculator = product }
