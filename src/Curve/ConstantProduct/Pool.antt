-- ===== src/Curve/ConstantProduct/Pool.antt =====
-- Which share of the pool a number of pool tokens is worth, on a constant product.
use solana_psm.Common.{
  ℕ, ◌+◌, ◌*◌, ◌/◌, ◌%◌, ◌≤◌, ◌<◌, ◌≡◌, ◌⊎◌, ok, arith, zero, suc, inl, inr, checked_mul,
  checked_div, checked_rem,
}
use native.Mathlib.Nat.{div-mul-le_self, lt-div-mul-add, div-add-mod', le-div_iff_mul-le}
use solana_psm.Curve.Calculator.{TradingTokenResult, floor, ceiling}
use solana_psm.Curve.ConstantProduct.{pool_tokens_to_trading_tokens, ceiling_amounts, round_up}

rounded_enough :
    (n d q r : ℕ) → q * d + r ≡ n → n ≤ q * d + d → (round_up q r ≡ 0) ⊎ (n ≤ round_up q r * d)
unfolding round_up
rounded_enough n d zero r split room = inl (ground arith)
rounded_enough n d (suc q) zero split room = inr (omega arith)
rounded_enough n d (suc q) (suc r) split room =
    let up : round_up (suc q) (suc r) ≡ suc q + 1 = ground arith in inr (rw up (omega arith))

round_up-ge_self : (q r : ℕ) → q ≤ round_up q r
unfolding round_up
round_up-ge_self q r = ground arith

-- A quotient, and the quotient rounded up where it is not zero.
round_up-ge :
    (n d : ℕ) → 0 < d → (round_up (n / d) (n % d) ≡ 0) ⊎ (n ≤ round_up (n / d) (n % d) * d)
round_up-ge n d h =
    rounded_enough n d (n / d) (n % d) (div-add-mod' n d) (omega (arith, lt-div-mul-add {a = n} h))

div_positive : (n d : ℕ) → 0 < d → d ≤ n → 0 < n / d
div_positive n d h le = (le-div_iff_mul-le h).1 (omega arith)

-- Rounding down, of each token at most the share of its reserve.
pub floor-le-share :
    (t supply a b : ℕ) (r : TradingTokenResult)
    → pool_tokens_to_trading_tokens t supply a b floor ≡ ok r
    → (r.token_a_amount * supply ≤ t * a) × (r.token_b_amount * supply ≤ t * b)
unfolding pool_tokens_to_trading_tokens checked_mul checked_div
floor-le-share t supply a b r h =
    ground (arith, div-mul-le_self (t * a) supply, div-mul-le_self (t * b) supply)

-- Rounding up, of each token nothing, or at least the share of its reserve.
pub ceiling-ge-share :
    (t supply a b : ℕ) (r : TradingTokenResult)
    → pool_tokens_to_trading_tokens t supply a b ceiling ≡ ok r
    → ((r.token_a_amount ≡ 0) ⊎ (t * a ≤ r.token_a_amount * supply))
      × ((r.token_b_amount ≡ 0) ⊎ (t * b ≤ r.token_b_amount * supply))
unfolding pool_tokens_to_trading_tokens ceiling_amounts checked_mul checked_div checked_rem
ceiling-ge-share t supply a b r h =
    ground (arith, round_up-ge (t * a) supply, round_up-ge (t * b) supply)

-- Rounding up, of each token something, where the share is at least one unit.
pub ceiling-positive :
    (t supply a b : ℕ) (r : TradingTokenResult)
    → supply ≤ t * a
    → supply ≤ t * b
    → pool_tokens_to_trading_tokens t supply a b ceiling ≡ ok r
    → (0 < r.token_a_amount) × (0 < r.token_b_amount)
unfolding pool_tokens_to_trading_tokens ceiling_amounts checked_mul checked_div checked_rem
ceiling-positive t supply a b r le_a le_b h = ground (
  arith,
  round_up-ge_self (t * a / supply) (t * a % supply),
  round_up-ge_self (t * b / supply) (t * b % supply),
  div_positive (t * a) supply,
  div_positive (t * b) supply,
)
