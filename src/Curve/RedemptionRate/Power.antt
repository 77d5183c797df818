-- ===== src/Curve/RedemptionRate/Power.antt =====
-- `_rpow` multiplies exactly where the base is a whole multiple of RAY, and never falls below RAY
-- where the base does not.
use solana_psm.Common.{
  ℕ, zero, suc, ◌+◌, ◌*◌, ◌/◌, ◌%◌, ◌^◌, ◌≤◌, ◌<◌, ◌≡◌, ok, nothing, ltb, if◌then◌else◌, ◌==◌,
  ◌>>=◌, >>=-eq-ok, Bool-cases, inl, inr, false, ap, ◌∙◌, u128_mod, arith,
}
use native.Mathlib.Nat.{mul-le-mul, mul-le-mul_left, mul-pos, mul_assoc, pow-zero, pow-succ'}
use solana_psm.Common.Powers.{le-pow, pow-halves_odd, pow-halves_even}
use solana_psm.Math.{SplMath, IsSplMath, u256_mod}
use solana_psm.Curve.Priced.{ray}
use solana_psm.Curve.RedemptionRate.{rmul, rpow_loop, rpow}

module _ (m : SplMath) (laws : IsSplMath m) where
  pub rmul_lem :
      (half x y : ℕ)
      → rmul m half x y
        ≡ (if ltb (x * y + half) u256_mod then ok ((x * y + half) / ray) else nothing)
  unfolding rmul
  rmul_lem half x y = ground (
    arith,
    laws.checked_mul_lem x y,
    laws.checked_add_lem (x * y) half,
    laws.div_lem (x * y + half) ray,
  )

  rmul-ge-ray : (half x y z : ℕ) → ray ≤ x → ray ≤ y → rmul m half x y ≡ ok z → ray ≤ z
  rmul-ge-ray half x y z hx hy h = ground (arith, rmul_lem half x y, mul-le-mul hx hy)

  -- One round of the loop.
  pub rpow_loop_step :
      (fuel half n x z : ℕ)
      → (n == 0) ≡ false
      → rpow_loop m (suc fuel) half n x z ≡ (
          rmul m half x x >>= λ x'. (if n % 2 == 1 then rmul m half z x' else ok z) >>= λ z'.
          rpow_loop m fuel half (n / 2) x' z')
  unfolding rpow_loop
  rpow_loop_step fuel half n x z e = simp (e, laws.rem_lem n 2, laws.div_lem n 2)

  rpow_loop-ge-ray :
      (fuel half n x z r : ℕ) → ray ≤ x → ray ≤ z → rpow_loop m fuel half n x z ≡ ok r → ray ≤ r
  rpow_loop-ge-ray zero half n x z r hx hz h = unfold rpow_loop in ground arith
  rpow_loop-ge-ray (suc fuel) half n x z r hx hz h = elim (Bool-cases (n == 0)) [
    | inl done ↦ unfold rpow_loop in ground arith
    | inr more ↦
        let (x', ex, rest) =
          >>=-eq-ok (rmul m half x x) _ (rw (rpow_loop_step fuel half n x z more) at h) in
        let (z', ez, last) = >>=-eq-ok (if n % 2 == 1 then rmul m half z x' else ok z) _ rest in
        let hx' = rmul-ge-ray half x x x' hx hx ex in
        rpow_loop-ge-ray fuel half (n / 2) x' z' r hx'
          (ground (arith, ez, rmul-ge-ray half z x' z' hz hx')) last
  ]

  rmul_exact :
      (half a b : ℕ)
      → half < ray
      → a * b * (ray * ray) + half < u256_mod
      → rmul m half (a * ray) (b * ray) ≡ ok (a * b * ray)
  rmul_exact half a b hh fits = ground (arith, rmul_lem half (a * ray) (b * ray))

  -- With `a * a` as `p`: the square, and in an odd round the product, are exact.
  square_exact :
      (half n a c : ℕ)
      → half < ray
      → 0 < n
      → 0 < a
      → 0 < c
      → c * (a * a) ^ n * (ray * ray) + half < u256_mod
      → rmul m half (a * ray) (a * ray) ≡ ok (a * a * ray)
  square_exact half n a c hh hn ha hc fits =
      let p0 : 0 < a * a = mul-pos ha ha in
      let up : 1 * (a * a) ≤ c * (a * a) ^ n = mul-le-mul hc (le-pow (a * a) n p0 hn) in
      rmul_exact half a a hh (omega (arith, up))

  product_exact :
      (half n a c : ℕ)
      → half < ray
      → 0 < n
      → 0 < a
      → c * (a * a) ^ n * (ray * ray) + half < u256_mod
      → rmul m half (c * ray) (a * a * ray) ≡ ok (c * (a * a) * ray)
  product_exact half n a c hh hn ha fits =
      let p0 : 0 < a * a = mul-pos ha ha in
      let up : c * (a * a) ≤ c * (a * a) ^ n = mul-le-mul_left c (le-pow (a * a) n p0 hn) in
      rmul_exact half c (a * a) hh (omega (arith, up))

  rpow_loop_exact :
      (fuel half n a c : ℕ)
      → half < ray
      → n < 2 ^ fuel
      → 0 < a
      → 0 < c
      → c * (a * a) ^ n * (ray * ray) + half < u256_mod
      → rpow_loop m fuel half n (a * ray) (c * ray) ≡ ok (c * (a * a) ^ n * ray)
  rpow_loop_exact zero half n a c hh hn ha hc fits =
      let none_left : n ≡ 0 = omega arith in
      rw (none_left, pow-zero) (unfold rpow_loop in ap ok (omega arith))
  rpow_loop_exact (suc fuel) half n a c hh hn ha hc fits = elim (Bool-cases (n == 0)) [
    | inl done ↦
        let none_left : n ≡ 0 = ground arith in
        rw (none_left, pow-zero) (unfold rpow_loop in ap ok (omega arith))
    | inr more ↦
        let n0 : 0 < n = ground arith in
        let fuel' : n / 2 < 2 ^ fuel = omega (arith, pow-succ' 2 fuel) in
        let square = square_exact half n a c hh n0 ha hc fits in
        let p0 : 0 < a * a = mul-pos ha ha in
        rw (rpow_loop_step fuel half n (a * ray) (c * ray) more, square)
          (elim (Bool-cases (n % 2 == 1)) [
            | inl odd ↦
                let split = pow-halves_odd (a * a) n (ground arith) in
                let whole : c * (a * a) * (a * a * (a * a)) ^ (n / 2) ≡ c * (a * a) ^ n =
                  rw split (mul_assoc c (a * a) _) in
                rw (odd, product_exact half n a c hh n0 ha fits)
                  (rpow_loop_exact fuel half (n / 2) (a * a) (c * (a * a)) hh fuel' p0
                      (mul-pos hc p0) (rw whole fits)
                    ∙ ap (λ t. ok (t * ray)) whole)
            | inr even ↦
                let split = pow-halves_even (a * a) n (ground arith) in
                rw (even, split)
                  (rpow_loop_exact fuel half (n / 2) (a * a) c hh fuel' p0 hc (rw split at fits))
          ])
  ]

  -- With a base of at least RAY, a power that the function gives is at least RAY.
  pub rpow-ge-ray : (x n r : ℕ) → ray ≤ x → rpow m x n ≡ ok r → ray ≤ r
  unfolding rpow
  rpow-ge-ray x n r hx h = ground (
    arith,
    laws.div_lem ray 2,
    laws.rem_lem n 2,
    laws.div_lem n 2,
    rpow_loop-ge-ray 128 (ray / 2) (n / 2) x (if n % 2 == 0 then ray else x) r hx,
  )

  -- On positive whole multiples of RAY the power is exact, and it is given whenever the exponent is a `u128`
  -- and the exact power, scaled twice, leaves room for the rounding term in 256 bits.
  pub rpow_exact :
      (k n : ℕ)
      → 0 < k
      → n < u128_mod
      → k ^ n * (ray * ray) + ray / 2 < u256_mod
      → rpow m (k * ray) n ≡ ok (k ^ n * ray)
  unfolding rpow
  rpow_exact k n hk hn fits = elim (Bool-cases (n % 2 == 0)) [
    | inl even ↦
        let split : k ^ n ≡ 1 * (k * k) ^ (n / 2) =
          pow-halves_even k n (ground arith) ∙ omega arith in
        let run =
          rpow_loop_exact 128 (ray / 2) (n / 2) k 1 (omega arith) (omega arith) hk (omega arith)
            (rw split at fits) in
        rw split (ground (arith, run, laws.div_lem ray 2, laws.rem_lem n 2, laws.div_lem n 2))
    | inr odd ↦
        let split = pow-halves_odd k n (ground arith) in
        let run =
          rpow_loop_exact 128 (ray / 2) (n / 2) k k (omega arith) (omega arith) hk hk
            (rw split at fits) in
        rw split (ground (arith, run, laws.div_lem ray 2, laws.rem_lem n 2, laws.div_lem n 2))
  ]
