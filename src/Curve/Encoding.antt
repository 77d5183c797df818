-- ===== src/Curve/Encoding.antt =====
-- The 65 bytes of a packed `SwapCurve` (program/src/curve/base.rs and the `DynPack` of each curve).
pub mod RoundTrip
use solana_psm.Common.{
  ℕ, suc, ◌+◌, max, Bool, true, false, Option, Outcome, Calc, ok, err, nothing, ◌>>=◌, ltb, ◌==◌,
  if◌then◌else◌, checked_add, checked_sub, checked_div, List, ◌++◌, [], ◌∷◌,
}
use solana_psm.Common.Bytes.{to_le_bytes, from_le_bytes, split_at, write_front}
use solana_psm.Error.{SwapError, ProgramError, Res}
use solana_psm.Fees
use solana_psm.Fees.{Fees}
use solana_psm.Math.{SplMath}
use solana_psm.Curve.Calculator.{
  TradeDirection, RoundDirection, floor, ceiling, SwapWithoutFeesResult, TradingTokenResult,
  initial_swap_pool_amount, validate_supply as validate_supply_both, validate_supply_a,
}
use solana_psm.Curve.ConstantProduct
use solana_psm.Curve.Priced
use solana_psm.Curve.ConstantPrice
use solana_psm.Curve.ConstantPrice.{ConstantPriceCurve}
use solana_psm.Curve.Offset
use solana_psm.Curve.Offset.{OffsetCurve}
use solana_psm.Curve.RedemptionRate
use solana_psm.Curve.RedemptionRate.{RedemptionRateCurve}
use solana_psm.Curve.Base.{
  SwapCurve, CurveType, constant_product, constant_price, offset, redemption_rate_curve, Calculator,
  product, price, with_offset, redemption_rate, as_u8, try_from,
}

-- `DynPack::pack_into_slice` of each curve: the constant product writes nothing.
unfoldable pub calculator_bytes : Calculator → List ℕ
calculator_bytes product = []
calculator_bytes (price c) = to_le_bytes 16 c.token_b_price
calculator_bytes (with_offset c) = to_le_bytes 8 c.token_b_offset
calculator_bytes (redemption_rate c) =
    to_le_bytes 16 c.max_ssr
    ++ (to_le_bytes 16 c.ssr ++ (to_le_bytes 16 c.rho ++ to_le_bytes 16 c.chi))

unfoldable pub unpack_redemption_rate : List ℕ → Res RedemptionRateCurve
unpack_redemption_rate input = do
  (max_ssr, r1) ← split_at 16 input
  (ssr, r2) ← split_at 16 r1
  (rho, r3) ← split_at 16 r2
  (chi, rest) ← split_at 16 r3
  ok (record {
    max_ssr = from_le_bytes max_ssr;
    ssr = from_le_bytes ssr;
    rho = from_le_bytes rho;
    chi = from_le_bytes chi;
  })

unfoldable pub unpack_calculator : CurveType → List ℕ → Res Calculator
unpack_calculator constant_product input = ok product
unpack_calculator constant_price input = do
  (token_b_price, rest) ← split_at 16 input
  ok (price (record { token_b_price = from_le_bytes token_b_price }))
unpack_calculator offset input = do
  (token_b_offset, rest) ← split_at 8 input
  ok (with_offset (record { token_b_offset = from_le_bytes token_b_offset }))
unpack_calculator redemption_rate_curve input = do
  c ← unpack_redemption_rate input
  ok (redemption_rate c)

-- `SwapCurve::pack_into_slice`: what the calculator does not write stays in the buffer.
unfoldable pub pack_into_slice : SwapCurve → List ℕ → Res (List ℕ)
pack_into_slice c output = do
  (old_type, old_rest) ← split_at 1 output
  (old_calculator, after) ← split_at 64 old_rest
  new_calculator ← write_front (calculator_bytes c.calculator) old_calculator
  ok (as_u8 c.curve_type ∷ (new_calculator ++ after))

unfoldable pub unpack_from_slice : List ℕ → Res SwapCurve
unpack_from_slice input = do
  (type_bytes, rest) ← split_at 1 input
  (calculator_slice, after) ← split_at 64 rest
  curve_type ← try_from (from_le_bytes type_bytes)
  calculator ← unpack_calculator curve_type calculator_slice
  ok (record { curve_type = curve_type; calculator = calculator })
