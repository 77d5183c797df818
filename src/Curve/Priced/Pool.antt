-- ===== src/Curve/Priced/Pool.antt =====
-- Which share of the pool a number of pool tokens is worth, at a price.
use solana_psm.Common.{ℕ, ◌+◌, ◌*◌, ◌/◌, ◌≤◌, ◌<◌, ◌≡◌, ok, >>=-eq-ok, arith}
use solana_psm.Common.Division.{ceil, ceil_bounds}
use native.Mathlib.Nat.{div-mul-le_self, lt-div-mul-add, mul-le-mul_left, mul-le-mul_right}
use solana_psm.Math.{SplMath, IsSplMath}
use solana_psm.Curve.Calculator.{TradingTokenResult, TradeDirection, a_to_b, b_to_a, floor, ceiling}
use solana_psm.Curve.Priced.{
  ray, share, token_b_value, given_value_of, pool_tokens_to_trading_tokens,
  trading_tokens_to_pool_tokens,
}

-- The value of a given amount, in token A.
abbrev pub given_worth : ℕ → ℕ → TradeDirection → ℕ
given_worth price source a_to_b = source
given_worth price source b_to_a = source * price / ray

-- The same exactly, in token A times `RAY`.
abbrev pub given_value : ℕ → ℕ → TradeDirection → ℕ
given_value price source a_to_b = source * ray
given_value price source b_to_a = source * price

given_worth-le-value :
    (price source : ℕ) (direction : TradeDirection)
    → given_worth price source direction * ray ≤ given_value price source direction
given_worth-le-value price source a_to_b = omega arith
given_worth-le-value price source b_to_a = div-mul-le_self (source * price) ray

given_value-le-worth :
    (price source : ℕ) (direction : TradeDirection)
    → given_value price source direction ≤ given_worth price source direction * ray + ray
given_value-le-worth price source a_to_b = omega arith
given_value-le-worth price source b_to_a =
    omega (arith, lt-div-mul-add {a = source * price} {b = ray} (omega arith))

-- At least a share by the rounded values is at least one by the exact values, up to one token A of
-- the value of the given token.
pub burnt-ge-value :
    (price source a b supply r : ℕ) (direction : TradeDirection)
    → supply * given_worth price source direction ≤ r * (b * price / ray + a)
    → supply * given_value price source direction ≤ r * (b * price + a * ray) + supply * ray
burnt-ge-value price source a b supply r direction h =
    let rounded : (b * price / ray + a) * ray ≤ b * price + a * ray =
      omega (arith, div-mul-le_self (b * price) ray) in
    omega (
      arith,
      mul-le-mul_left r rounded,
      mul-le-mul_right ray h,
      mul-le-mul_left supply (given_value-le-worth price source direction),
    )

-- At most a share by the rounded values is at most one by the exact values, up to one token A of the
-- value of the reserves.
issued-le-value :
    (price source a b supply r : ℕ) (direction : TradeDirection)
    → r * (b * price / ray + a) ≤ supply * given_worth price source direction
    → r * (b * price + a * ray) ≤ supply * given_value price source direction + r * ray
issued-le-value price source a b supply r direction h =
    let rounded : b * price + a * ray ≤ (b * price / ray + a) * ray + ray =
      omega (arith, lt-div-mul-add {a = b * price} {b = ray} (omega arith)) in
    omega (
      arith,
      mul-le-mul_left r rounded,
      mul-le-mul_right ray h,
      mul-le-mul_left supply (given_worth-le-value price source direction),
    )

module _ (m : SplMath) (laws : IsSplMath m) where
  share_floor :
      (t amount supply r : ℕ)
      → share m floor t amount supply ≡ ok r
      → (0 < supply) × (r ≡ t * amount / supply)
  share_floor t amount supply r h =
      ground (arith, laws.checked_mul_lem t amount, laws.checked_div_lem (t * amount) supply)

  share_ceiling :
      (t amount supply r : ℕ)
      → supply ≤ t * amount
      → share m ceiling t amount supply ≡ ok r
      → (0 < supply) × (r ≡ ceil (t * amount) supply)
  share_ceiling t amount supply r le h = ground (
    arith,
    laws.checked_mul_lem t amount,
    laws.u256_ceil_div_lem (t * amount) supply,
    laws.u256_ceil_div_zero (t * amount),
  )

  as_u128-eq-ok : (a r : ℕ) → m.u256_as_u128 a ≡ ok r → r ≡ a
  as_u128-eq-ok a r h = ground (arith, laws.as_u128_lem a)

  -- Pool tokens that are turned into trading tokens, rounding down, give of each token at most
  -- their share of the reserve.
  pub withdrawn-le-share :
      (t supply a b : ℕ) (r : TradingTokenResult)
      → pool_tokens_to_trading_tokens m t supply a b floor ≡ ok r
      → (r.token_a_amount * supply ≤ t * a) × (r.token_b_amount * supply ≤ t * b)
  unfolding pool_tokens_to_trading_tokens
  withdrawn-le-share t supply a b r h =
      let (share_a, ea, h1) = >>=-eq-ok (share m floor t a supply) _ h in
      let (share_b, eb, h2) = >>=-eq-ok (share m floor t b supply) _ h1 in
      let (token_a, ua, h3) = >>=-eq-ok (m.u256_as_u128 share_a) _ h2 in
      let (token_b, ub, h4) = >>=-eq-ok (m.u256_as_u128 share_b) _ h3 in
      let (_, exact_a) = share_floor t a supply share_a ea in
      let (_, exact_b) = share_floor t b supply share_b eb in
      ground (
        arith,
        h4,
        as_u128-eq-ok share_a token_a ua,
        as_u128-eq-ok share_b token_b ub,
        div-mul-le_self (t * a) supply,
        div-mul-le_self (t * b) supply,
      )

  -- Pool tokens that are paid for, rounding up, cost of each token at least their share of the
  -- reserve. (The share of each reserve is at least one unit.)
  pub deposited-ge-share :
      (t supply a b : ℕ) (r : TradingTokenResult)
      → supply ≤ t * a
      → supply ≤ t * b
      → pool_tokens_to_trading_tokens m t supply a b ceiling ≡ ok r
      → (t * a ≤ r.token_a_amount * supply) × (t * b ≤ r.token_b_amount * supply)
  unfolding pool_tokens_to_trading_tokens
  deposited-ge-share t supply a b r le_a le_b h =
      let (share_a, ea, h1) = >>=-eq-ok (share m ceiling t a supply) _ h in
      let (share_b, eb, h2) = >>=-eq-ok (share m ceiling t b supply) _ h1 in
      let (token_a, ua, h3) = >>=-eq-ok (m.u256_as_u128 share_a) _ h2 in
      let (token_b, ub, h4) = >>=-eq-ok (m.u256_as_u128 share_b) _ h3 in
      let (pos, exact_a) = share_ceiling t a supply share_a le_a ea in
      let (_, exact_b) = share_ceiling t b supply share_b le_b eb in
      ground (
        arith,
        h4,
        as_u128-eq-ok share_a token_a ua,
        as_u128-eq-ok share_b token_b ub,
        ceil_bounds (t * a) supply pos,
        ceil_bounds (t * b) supply pos,
      )

  token_b_value-eq-ok :
      (price amount r : ℕ) → token_b_value m price amount ≡ ok r → r ≡ amount * price / ray
  token_b_value-eq-ok price amount r h =
      ground (arith, laws.checked_mul_lem amount price, laws.checked_div_lem (amount * price) ray)

  given_value_of-eq-ok :
      (price source : ℕ) (direction : TradeDirection) (r : ℕ)
      → given_value_of m price source direction ≡ ok r
      → r ≡ given_worth price source direction
  given_value_of-eq-ok price source a_to_b r h = cc
  given_value_of-eq-ok price source b_to_a r h = token_b_value-eq-ok price source r h

  -- The pool tokens that are issued for one trading token, rounding down, are at most the share of
  -- the supply that its value has of the value of the reserves, where the curve reckons both in whole
  -- tokens A, rounded down; and at most the share that its exact value has of the exact value of the
  -- reserves less one token A.
  pub issued-le-share :
      (price source a b supply : ℕ) (direction : TradeDirection) (r : ℕ)
      → trading_tokens_to_pool_tokens m price source a b supply direction floor ≡ ok r
      → (r * (b * price / ray + a) ≤ supply * given_worth price source direction)
        × (r * (b * price + a * ray) ≤ supply * given_value price source direction + r * ray)
  unfolding trading_tokens_to_pool_tokens
  issued-le-share price source a b supply direction r h =
      let (given, eg, h1) = >>=-eq-ok (given_value_of m price source direction) _ h in
      let (b_value, eb, h2) = >>=-eq-ok (token_b_value m price b) _ h1 in
      let (total, et, h3) = >>=-eq-ok (m.u256_checked_add b_value a) _ h2 in
      let (tokens, es, h4) = >>=-eq-ok (share m floor supply given total) _ h3 in
      let sum : total ≡ b * price / ray + a =
        ground
          (arith, et, laws.checked_add_lem b_value a, token_b_value-eq-ok price b b_value eb) in
      let (_, exact) = share_floor supply given total tokens es in
      let rounded : r * (b * price / ray + a) ≤ supply * given_worth price source direction =
        rw
          (
            ← sum,
            ← given_value_of-eq-ok price source direction given eg,
            as_u128-eq-ok tokens r h4,
            exact,
          )
          (div-mul-le_self (supply * given) total) in
      (rounded, issued-le-value price source a b supply r direction rounded)

  -- The pool tokens that are burnt for one trading token, rounding up, are at least the share of the
  -- supply that its value has of the value of the reserves. (The share is at least one unit.)
  pub burnt-ge-share :
      (price source a b supply : ℕ) (direction : TradeDirection) (r : ℕ)
      → b * price / ray + a ≤ supply * given_worth price source direction
      → trading_tokens_to_pool_tokens m price source a b supply direction ceiling ≡ ok r
      → supply * given_worth price source direction ≤ r * (b * price / ray + a)
  unfolding trading_tokens_to_pool_tokens
  burnt-ge-share price source a b supply direction r le h =
      let (given, eg, h1) = >>=-eq-ok (given_value_of m price source direction) _ h in
      let (b_value, eb, h2) = >>=-eq-ok (token_b_value m price b) _ h1 in
      let (total, et, h3) = >>=-eq-ok (m.u256_checked_add b_value a) _ h2 in
      let (tokens, es, h4) = >>=-eq-ok (share m ceiling supply given total) _ h3 in
      let sum : total ≡ b * price / ray + a =
        ground
          (arith, et, laws.checked_add_lem b_value a, token_b_value-eq-ok price b b_value eb) in
      let worth : given ≡ given_worth price source direction =
        given_value_of-eq-ok price source direction given eg in
      let (pos, exact) = share_ceiling supply given total tokens (rw (sum, worth) le) es in
      rw (← sum, ← worth, as_u128-eq-ok tokens r h4, exact)
        (ceil_bounds (supply * given) total pos).0
