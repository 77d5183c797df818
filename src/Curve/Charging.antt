-- ===== src/Curve/Charging.antt =====
-- The operations of `SwapCurve` that charge fees around the calculator (program/src/curve/base.rs).
pub mod Fair
pub mod Overcharge
pub mod Within
pub mod Single
use solana_psm.Common.{
  ℕ, suc, ◌+◌, max, Bool, true, false, Option, Outcome, Calc, ok, err, nothing, ◌>>=◌, ltb, ◌==◌,
  if◌then◌else◌, checked_add, checked_sub, checked_div, List, ◌++◌, [], ◌∷◌,
}
use solana_psm.Common.Bytes.{to_le_bytes, from_le_bytes, split_at, write_front}
use solana_psm.Error.{SwapError, ProgramError, Res}
use solana_psm.Fees
use solana_psm.Fees.{Fees}
use solana_psm.Math.{SplMath}
use solana_psm.Curve.Calculator.{
  TradeDirection, RoundDirection, floor, ceiling, SwapWithoutFeesResult, TradingTokenResult,
  initial_swap_pool_amount, validate_supply as validate_supply_both, validate_supply_a,
}
use solana_psm.Curve.ConstantProduct
use solana_psm.Curve.Priced
use solana_psm.Curve.ConstantPrice
use solana_psm.Curve.ConstantPrice.{ConstantPriceCurve}
use solana_psm.Curve.Offset
use solana_psm.Curve.Offset.{OffsetCurve}
use solana_psm.Curve.RedemptionRate
use solana_psm.Curve.RedemptionRate.{RedemptionRateCurve}
use solana_psm.Curve.Base.{
  SwapCurve, swap_without_fees, deposit_without_fees, withdraw_without_fees,
}

pub record SwapResult : Type 0 where
  pub new_swap_source_amount : ℕ
  pub new_swap_destination_amount : ℕ
  pub source_amount_swapped : ℕ
  pub destination_amount_swapped : ℕ
  pub trade_fee : ℕ
  pub owner_fee : ℕ

pub record SingleTokenTypeResult : Type 0 where
  pub amount : ℕ
  pub owner_fee : ℕ

-- The fees charged on an amount, with their sum.
pub record Charged : Type 0 where
  pub trade : ℕ
  pub owner : ℕ
  pub total : ℕ

unfoldable pub charge : Fees → ℕ → Calc Charged
charge fees amount = do
  trade_fee ← Fees.trading_fee fees amount
  owner_fee ← Fees.owner_trading_fee fees amount
  total_fees ← checked_add trade_fee owner_fee
  ok (record { trade = trade_fee; owner = owner_fee; total = total_fees })

-- The fees of a swap: those of the offered amount, or, if the curve did not use all of it, those of
-- the amount before fees that belongs to what was used.
unfoldable pub recharge : Fees → Charged → ℕ → ℕ → Calc Charged
recharge fees charged amount_used source_amount_less_fees =
    if ltb amount_used source_amount_less_fees
    then (do
      pre_fee_amount ← Fees.pre_trading_fee_amount fees amount_used
      charge fees pre_fee_amount)
    else ok charged

module _ (m : SplMath) where
  unfoldable pub swap : SwapCurve → ℕ → ℕ → ℕ → TradeDirection → Fees → Option ℕ → Calc SwapResult
  swap c source_amount swap_source_amount swap_destination_amount direction fees timestamp = do
    charged ← charge fees source_amount
    source_amount_less_fees ← checked_sub source_amount charged.total
    result ←
        swap_without_fees m c.calculator source_amount_less_fees swap_source_amount
          swap_destination_amount direction timestamp
    final ← recharge fees charged result.source_amount_swapped source_amount_less_fees
    source_amount_swapped ← checked_add result.source_amount_swapped final.total
    new_source ← checked_add swap_source_amount source_amount_swapped
    new_destination ← checked_sub swap_destination_amount result.destination_amount_swapped
    ok (record {
      new_swap_source_amount = new_source;
      new_swap_destination_amount = new_destination;
      source_amount_swapped = source_amount_swapped;
      destination_amount_swapped = result.destination_amount_swapped;
      trade_fee = final.trade;
      owner_fee = final.owner;
    })

  unfoldable pub deposit_single_token_type :
      SwapCurve → ℕ → ℕ → ℕ → ℕ → TradeDirection → Fees → Option ℕ → Calc SingleTokenTypeResult
  deposit_single_token_type c source_amount a b pool_supply direction fees timestamp =
      if source_amount == 0 then ok (record { amount = 0; owner_fee = 0 }) else do
        half ← checked_div source_amount 2
        charged ← charge fees (max 1 half)
        source_amount_less_fees ← checked_sub source_amount charged.total
        amount ←
            deposit_without_fees m c.calculator source_amount_less_fees a b pool_supply direction
              timestamp
        ok (record { amount = amount; owner_fee = charged.owner })

  unfoldable pub withdraw_single_token_type_exact_out :
      SwapCurve → ℕ → ℕ → ℕ → ℕ → TradeDirection → Fees → Option ℕ → Calc SingleTokenTypeResult
  withdraw_single_token_type_exact_out c source_amount a b pool_supply direction fees timestamp =
      if source_amount == 0 then ok (record { amount = 0; owner_fee = 0 }) else do
        source_plus_one ← checked_add source_amount 1
        half_source_amount ← checked_div source_plus_one 2
        pre_fee_source_amount ← Fees.pre_trading_fee_amount fees half_source_amount
        owner_fee ← Fees.owner_trading_fee fees pre_fee_source_amount
        other_half ← checked_sub source_amount half_source_amount
        adjusted_source_amount ← checked_add other_half pre_fee_source_amount
        amount ←
            withdraw_without_fees m c.calculator adjusted_source_amount a b pool_supply direction
              ceiling timestamp
        ok (record { amount = amount; owner_fee = owner_fee })
