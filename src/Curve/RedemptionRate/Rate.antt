-- ===== src/Curve/RedemptionRate/Rate.antt =====
-- The conversion rate never falls below `chi`.
use solana_psm.Common.{
  ℕ, ◌-◌, ◌*◌, ◌/◌, ◌≤◌, ◌<◌, ◌≡◌, ok, arith, checked_sub, Bool-cases, inl, inr, ◌==◌, ◌⊎◌,
  checked_sub-eq-ok, >>=-eq-ok,
}
use native.Mathlib.Nat.{mul-le-mul_right, le-div_iff_mul-le}
use solana_psm.Math.{SplMath, IsSplMath}
use solana_psm.Curve.Priced.{ray}
use solana_psm.Curve.RedemptionRate.{RedemptionRateCurve, rpow, get_conversion_rate}
use solana_psm.Curve.RedemptionRate.Power.{rpow-ge-ray}

module _ (m : SplMath) (laws : IsSplMath m) where
  -- The rate comes from `chi` by a power of at least one.
  get_conversion_rate-eq-ok :
      (c : RedemptionRateCurve) (timestamp price : ℕ)
      → get_conversion_rate m c timestamp ≡ ok price
      → ((timestamp ≡ c.rho) × (price ≡ c.chi))
        ⊎ ((c.rho < timestamp)
            × ((power : ℕ) × (rpow m c.ssr (timestamp - c.rho) ≡ ok power)
                × (price ≡ power * c.chi / ray)))
  unfolding get_conversion_rate checked_sub
  get_conversion_rate-eq-ok c timestamp price h = elim (Bool-cases (timestamp == c.rho)) [
    | inl now ↦ inl (ground arith)
    | inr later ↦
        let (duration, ed, rest) = >>=-eq-ok (checked_sub timestamp c.rho) _ (rw later at h) in
        let (power, ep, last) = >>=-eq-ok (rpow m c.ssr duration) _ rest in
        let (gap, before) = checked_sub-eq-ok timestamp c.rho ed in
        let exact : duration ≡ timestamp - c.rho = omega arith in
        inr (
          ground arith,
          (
            power,
            rw exact at ep,
            ground (arith, last, laws.mul_lem power c.chi, laws.div_lem (power * c.chi) ray),
          ),
        )
  ]

  -- With a rate of at least one, a conversion rate that is given is at least `chi`, and its time is
  -- not before `rho`.
  pub get_conversion_rate-ge-chi :
      (c : RedemptionRateCurve) (timestamp price : ℕ)
      → ray ≤ c.ssr
      → get_conversion_rate m c timestamp ≡ ok price
      → (c.rho ≤ timestamp) × (c.chi ≤ price)
  get_conversion_rate-ge-chi c timestamp price hs h =
      elim (get_conversion_rate-eq-ok c timestamp price h) [
        | inl (now, same) ↦ omega arith
        | inr (later, (power, e, value)) ↦
            let up = rpow-ge-ray m laws c.ssr (timestamp - c.rho) power hs e in
            (
              omega arith,
              rw value
                  ((le-div_iff_mul-le (omega arith)).1 (omega (arith, mul-le-mul_right c.chi up))),
            )
      ]
