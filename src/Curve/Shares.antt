-- ===== src/Curve/Shares.antt =====
-- Which share of the pool a number of pool tokens is worth, on every curve.
use solana_psm.Common.{
  ℕ, ◌+◌, ◌*◌, ◌<◌, ◌≤◌, ◌≡◌, ◌⊎◌, inl, inr, true, ok, >>=-eq-ok, checked_add, arith,
}
use solana_psm.Math.{SplMath, IsSplMath}
use solana_psm.Curve.Calculator.{TradingTokenResult, floor, ceiling}
use solana_psm.Curve.ConstantProduct.Pool.{floor-le-share, ceiling-ge-share, ceiling-positive}
use solana_psm.Curve.Priced.Pool.{withdrawn-le-share, deposited-ge-share}
use solana_psm.Curve.Offset
use solana_psm.Curve.Base.{
  Calculator, product, price, with_offset, redemption_rate, allows_deposits,
  pool_tokens_to_trading_tokens,
}

-- The reserve of token B that a curve reckons with.
abbrev pub reckoned_b : Calculator → ℕ → ℕ
reckoned_b product b = b
reckoned_b (price c) b = b
reckoned_b (with_offset c) b = b + c.token_b_offset
reckoned_b (redemption_rate c) b = b

module _ (m : SplMath) (laws : IsSplMath m) where
  -- Pool tokens that are turned into trading tokens, rounding down, give of each token at most
  -- their share of the reserve, which on an offset curve is the reserve with the offset.
  pub tokens_out-le-share :
      (c : Calculator) (t supply a b : ℕ) (r : TradingTokenResult)
      → pool_tokens_to_trading_tokens m c t supply a b floor ≡ ok r
      → (r.token_a_amount * supply ≤ t * a) × (r.token_b_amount * supply ≤ t * reckoned_b c b)
  unfolding pool_tokens_to_trading_tokens Offset.pool_tokens_to_trading_tokens checked_add
  tokens_out-le-share product t supply a b r h = floor-le-share t supply a b r h
  tokens_out-le-share (price c) t supply a b r h = withdrawn-le-share m laws t supply a b r h
  tokens_out-le-share (redemption_rate c) t supply a b r h =
      withdrawn-le-share m laws t supply a b r h
  tokens_out-le-share (with_offset c) t supply a b r h =
      let (b', sum, h1) = >>=-eq-ok (checked_add b c.token_b_offset) _ h in
      let e : b' ≡ b + c.token_b_offset = ground (arith, sum) in
      rw (← e) (floor-le-share t supply a b' r h1)

  -- On a curve that allows deposits, pool tokens that are paid for, rounding up, cost of each token
  -- at least their share of the reserve, if each share is at least one unit or, on the constant
  -- product, if each amount is not nothing.
  pub tokens_in-ge-share :
      (c : Calculator) (t supply a b : ℕ) (r : TradingTokenResult)
      → allows_deposits c ≡ true
      → ((c ≡ product) × (0 < r.token_a_amount) × (0 < r.token_b_amount))
        ⊎ ((supply ≤ t * a) × (supply ≤ t * b))
      → pool_tokens_to_trading_tokens m c t supply a b ceiling ≡ ok r
      → (t * a ≤ r.token_a_amount * supply) × (t * b ≤ r.token_b_amount * supply)
  unfolding pool_tokens_to_trading_tokens allows_deposits
  tokens_in-ge-share product t supply a b r may (inl paid) h =
      ground (arith, ceiling-ge-share t supply a b r h)
  tokens_in-ge-share product t supply a b r may (inr (le_a, le_b)) h =
      ground (arith, ceiling-ge-share t supply a b r h, ceiling-positive t supply a b r le_a le_b h)
  tokens_in-ge-share (price c) t supply a b r may (inl (same, _, _)) h = cc
  tokens_in-ge-share (price c) t supply a b r may (inr (le_a, le_b)) h =
      deposited-ge-share m laws t supply a b r le_a le_b h
  tokens_in-ge-share (redemption_rate c) t supply a b r may (inl (same, _, _)) h = cc
  tokens_in-ge-share (redemption_rate c) t supply a b r may (inr (le_a, le_b)) h =
      deposited-ge-share m laws t supply a b r le_a le_b h
  tokens_in-ge-share (with_offset c) t supply a b r may shares h = cc
