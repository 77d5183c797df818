-- ===== src/Curve/ConstantProduct/Invariant.antt =====
-- A constant product swap never lowers the product of the reserves.
use solana_psm.Common.{
  ℕ, ◌+◌, ◌-◌, ◌*◌, ◌≤◌, ◌<◌, ◌≡◌, ok, arith, checked_add, checked_mul, checked_sub,
}
use solana_psm.Common.Division.{ceil, ceil_bounds, ceil-le, ceil-pos}
use solana_psm.Math.{SplMath, IsSplMath}
use solana_psm.Curve.Calculator.{SwapWithoutFeesResult, map_zero_to_none}
use solana_psm.Curve.ConstantProduct.{swap}

module _ (m : SplMath) (laws : IsSplMath m) where
  pub swap-eq-ok :
      (source swap_source swap_destination : ℕ) (r : SwapWithoutFeesResult)
      → 0 < swap_source
      → swap_source + source ≤ swap_source * swap_destination
      → swap m source swap_source swap_destination ≡ ok r
      → let product = swap_source * swap_destination in
        let quotient = ceil product (swap_source + source) in
        (swap_source + r.source_amount_swapped ≡ ceil product quotient)
        × (quotient + r.destination_amount_swapped ≡ swap_destination)
        × (0 < r.destination_amount_swapped)
  unfolding swap checked_add checked_mul checked_sub map_zero_to_none
  swap-eq-ok source swap_source swap_destination r h0 h1 h =
      ground (arith, laws.u128_ceil_div_lem (swap_source * swap_destination) (swap_source + source))

  -- A swap that the curve allows takes no more than was offered, gives something, leaves the pool
  -- enough to give it, and does not lower the product of the reserves. (The source
  -- reserve is positive, and the product of the reserves is at least the source reserve with the
  -- offered amount.)
  pub swap-product :
      (source swap_source swap_destination : ℕ) (r : SwapWithoutFeesResult)
      → 0 < swap_source
      → swap_source + source ≤ swap_source * swap_destination
      → swap m source swap_source swap_destination ≡ ok r
      → (r.source_amount_swapped ≤ source)
        × (0 < r.destination_amount_swapped)
        × (r.destination_amount_swapped ≤ swap_destination)
        × (swap_source * swap_destination
            ≤ (swap_source + r.source_amount_swapped)
              * (swap_destination - r.destination_amount_swapped))
  swap-product source swap_source swap_destination r h0 h1 h =
      let product = swap_source * swap_destination in
      let quotient = ceil product (swap_source + source) in
      let (used, given, pos) = swap-eq-ok source swap_source swap_destination r h0 h1 h in
      let q0 = ceil-pos product (swap_source + source) (omega arith) (omega arith) in
      let kept : swap_destination - r.destination_amount_swapped ≡ quotient = omega arith in
      let up = (ceil_bounds product (swap_source + source) (omega arith)).0 in
      let least = ceil-le product quotient (swap_source + source) q0 (omega (arith, up)) in
      (omega arith, pos, omega arith, rw (kept, used) (ceil_bounds product quotient q0).0)
