-- ===== src/Curve/RedemptionRate/Updates.antt =====
-- What `set_rates` accepts, and what holds after any number of updates.
use solana_psm.Common.{
  ℕ, ◌-◌, ◌*◌, ◌/◌, ◌≤◌, ◌≡◌, ◌≢◌, ◌⊎◌, ok, arith, ◌==◌, >>=-eq-ok, ok_or, ok_or-eq-ok, fail_if,
  ltb, false, checked_sub, checked_sub-eq-ok,
}
use solana_psm.Math.{SplMath, IsSplMath}
use solana_psm.Curve.Priced.{ray}
use solana_psm.Curve.RedemptionRate.{RedemptionRateCurve, rpow, set_rates, check_update, chi_limit}

module _ (m : SplMath) where
  -- The limit of an update of a capped curve.
  chi_limit-eq-ok :
      (laws : IsSplMath m) (c : RedemptionRateCurve) (rho limit : ℕ)
      → chi_limit m c rho ≡ ok limit
      → (power : ℕ) × (rpow m c.max_ssr (rho - c.rho) ≡ ok power) × (limit ≡ power * c.chi / ray)
  unfolding chi_limit checked_sub
  chi_limit-eq-ok laws c rho limit h =
      let (duration, ed, r1) = >>=-eq-ok (ok_or (checked_sub rho c.rho) _) _ h in
      let (power, ep, r2) = >>=-eq-ok (ok_or (rpow m c.max_ssr duration) _) _ r1 in
      let (gap, before) = checked_sub-eq-ok rho c.rho (ok_or-eq-ok _ _ ed) in
      let exact : duration ≡ rho - c.rho = omega arith in
      (
        power,
        rw exact at (ok_or-eq-ok _ _ ep),
        ground
            (arith, r2, laws.checked_mul_lem power c.chi, laws.checked_div_lem (power * c.chi) ray),
      )

  check_update-eq-ok :
      (c : RedemptionRateCurve) (rho chi : ℕ)
      → c.max_ssr ≢ 0
      → check_update m c rho chi ≡ ok tt
      → (limit : ℕ) × (chi_limit m c rho ≡ ok limit) × (chi ≤ limit)
  unfolding check_update
  check_update-eq-ok c rho chi h1 h =
      let capped : (c.max_ssr == 0) ≡ false = ground arith in
      let (_, _, r1) = >>=-eq-ok (fail_if (ltb rho c.rho) _) _ h in
      let (_, _, r2) = >>=-eq-ok (fail_if (ltb chi c.chi) _) _ r1 in
      let (limit, e, r3) = >>=-eq-ok (chi_limit m c rho) _ (rw capped at r2) in
      (limit, e, ground (arith, r3))

  -- An update that is accepted gives the curve with the new `ssr`, `rho` and `chi`; `rho` is not in the
  -- future, `ssr` is at least RAY and within the cap, if there is one, and neither `rho` nor `chi`
  -- falls, unless the curve has never been set.
  pub set_rates-eq-ok :
      (c : RedemptionRateCurve) (ssr rho chi now : ℕ) (c' : RedemptionRateCurve)
      → set_rates m c ssr rho chi now ≡ ok c'
      → (c' ≡ record { max_ssr = c.max_ssr; ssr = ssr; rho = rho; chi = chi })
        × (rho ≤ now)
        × (ray ≤ ssr)
        × ((c.max_ssr ≡ 0) ⊎ (ssr ≤ c.max_ssr))
        × ((c.rho ≡ 0) ⊎ ((c.rho ≤ rho) × (c.chi ≤ chi)))
  unfolding set_rates check_update
  set_rates-eq-ok c ssr rho chi now c' h = ground arith

  -- A later update of a capped curve stays under the value that `max_ssr` allows since `rho`.
  pub set_rates-cap :
      (laws : IsSplMath m) (c : RedemptionRateCurve) (ssr rho chi now : ℕ)
      (c' : RedemptionRateCurve)
      → c.rho ≢ 0
      → c.max_ssr ≢ 0
      → set_rates m c ssr rho chi now ≡ ok c'
      → (power : ℕ) × (rpow m c.max_ssr (rho - c.rho) ≡ ok power)
        × (c'.chi ≤ power * c.chi / ray)
        × (c'.ssr ≤ c.max_ssr)
  set_rates-cap laws c ssr rho chi now c' h0 h1 h =
      let checked : check_update m c rho chi ≡ ok tt = unfold set_rates in ground arith in
      let (limit, el, below) = check_update-eq-ok c rho chi h1 checked in
      let (power, ep, exact) = chi_limit-eq-ok laws c rho limit el in
      let (same, _, _, capped, _) = set_rates-eq-ok c ssr rho chi now c' h in
      (power, ep, ground arith, ground arith)

-- The curves that accepted updates lead to.
pub data Updates (m : SplMath) (c : RedemptionRateCurve) : RedemptionRateCurve → Type 0 where
  here : Updates m c c
  update :
      {d e : RedemptionRateCurve} (ssr rho chi now : ℕ)
      → Updates m c d
      → set_rates m d ssr rho chi now ≡ ok e
      → Updates m c e

-- After any updates of a curve that has been set once (`rho` is not 0), `max_ssr` is what it was,
-- and neither `rho` nor `chi` has fallen.
pub Updates-monotone :
    (m : SplMath) {c d : RedemptionRateCurve}
    → c.rho ≢ 0
    → Updates m c d
    → (d.max_ssr ≡ c.max_ssr) × (c.rho ≤ d.rho) × (c.chi ≤ d.chi)
Updates-monotone m h here = omega arith
Updates-monotone m h (update {d} {e} ssr rho chi now before step) =
    ground (arith, Updates-monotone m h before, set_rates-eq-ok m d ssr rho chi now e step)
