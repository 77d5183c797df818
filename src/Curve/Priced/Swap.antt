-- ===== src/Curve/Priced/Swap.antt =====
-- A swap at a price gives no more than it takes.
use solana_psm.Common.{ℕ, ◌*◌, ◌/◌, ◌≤◌, ◌<◌, ◌≡◌, ok, >>=-eq-ok, arith}
use solana_psm.Common.Division.{ceil_bounds}
use native.Mathlib.Nat.{div-mul-le_self}
use solana_psm.Math.{SplMath, IsSplMath}
use solana_psm.Curve.Calculator.{
  SwapWithoutFeesResult, map_zero_to_none, TradeDirection, a_to_b, b_to_a,
}
use solana_psm.Curve.Priced.{swap_at_price, swap_amounts, ray}

-- The values, in token A and scaled by RAY, of what a swap takes and of what it gives.
abbrev pub value_in : ℕ → TradeDirection → SwapWithoutFeesResult → ℕ
value_in price a_to_b r = r.source_amount_swapped * ray
value_in price b_to_a r = r.source_amount_swapped * price

abbrev pub value_out : ℕ → TradeDirection → SwapWithoutFeesResult → ℕ
value_out price a_to_b r = r.destination_amount_swapped * price
value_out price b_to_a r = r.destination_amount_swapped * ray

module _ (m : SplMath) (laws : IsSplMath m) where
  pub swap_at_price-eq-ok :
      (price source : ℕ) (direction : TradeDirection) (r : SwapWithoutFeesResult)
      → swap_at_price m price source direction ≡ ok r
      → (swap_amounts m price source direction
          ≡ ok (r.source_amount_swapped, r.destination_amount_swapped))
        × (0 < r.source_amount_swapped)
        × (0 < r.destination_amount_swapped)
  unfolding swap_at_price map_zero_to_none
  swap_at_price-eq-ok price source direction r h =
      let ((used, given), e, rest) = >>=-eq-ok (swap_amounts m price source direction) _ h in
      ground (arith, e, rest, laws.as_u128_lem used, laws.as_u128_lem given)

  swap_amounts-b_to_a :
      (price source used given : ℕ)
      → swap_amounts m price source b_to_a ≡ ok (used, given)
      → (used ≡ source) × (given ≡ source * price / ray)
  unfolding swap_amounts
  swap_amounts-b_to_a price source used given h =
      ground (arith, laws.checked_mul_lem source price, laws.checked_div_lem (source * price) ray)

  -- A product below RAY is rounded up in a way of which nothing is said, but not to zero.
  swap_amounts-a_to_b :
      (price source used given : ℕ)
      → swap_amounts m price source a_to_b ≡ ok (used, given)
      → (used ≤ source) × (given ≡ source * ray / price) × (0 < used → given * price ≤ used * ray)
  unfolding swap_amounts
  swap_amounts-a_to_b price source used given h = ground (
    arith,
    laws.checked_mul_lem source ray,
    laws.checked_div_lem (source * ray) price,
    laws.checked_mul_lem (source * ray / price) price,
    laws.u256_ceil_div_lem (source * ray / price * price) ray,
    ceil_bounds (source * ray / price * price) ray,
  )

  -- A swap at a price takes at most what was offered, takes and gives something, and gives no more
  -- value than it takes, in either direction.
  pub swap_at_price-fair :
      (price source : ℕ) (direction : TradeDirection) (r : SwapWithoutFeesResult)
      → swap_at_price m price source direction ≡ ok r
      → (r.source_amount_swapped ≤ source)
        × (0 < r.source_amount_swapped)
        × (0 < r.destination_amount_swapped)
        × (value_out price direction r ≤ value_in price direction r)
  swap_at_price-fair price source a_to_b r h =
      let (e, used, given) = swap_at_price-eq-ok price source a_to_b r h in
      ground (arith, swap_amounts-a_to_b price source _ _ e)
  swap_at_price-fair price source b_to_a r h =
      let (e, used, given) = swap_at_price-eq-ok price source b_to_a r h in
      ground (arith, swap_amounts-b_to_a price source _ _ e, div-mul-le_self (source * price) ray)
