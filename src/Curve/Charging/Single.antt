-- ===== src/Curve/Charging/Single.antt =====
-- What one token is worth in pool tokens, with the fees (program/src/curve/base.rs).
use solana_psm.Common.{
  ℕ, ◌+◌, ◌*◌, ◌/◌, ◌≤◌, ◌<◌, ◌≡◌, refl, sym, ok, Option, >>=-eq-ok, checked_sub, checked_sub-eq-ok,
  checked_add, checked_add-eq-ok, checked_div, checked_div-eq-ok, max, ◌==◌, if-eq-ok, inl, inr,
  arith,
}
use native.Mathlib.Nat.{mul-le-mul_right, mul-le-mul_left, le_trans}
use solana_psm.Common.Division.{div_mono}
use solana_psm.Math.{SplMath, IsSplMath}
use solana_psm.Fees.{Fees, pre_trading_fee_amount, owner_trading_fee}
use solana_psm.Fees.Amount.{pre_trading_fee_amount-ge}
use solana_psm.Curve.Calculator.{TradeDirection, a_to_b, b_to_a, RoundDirection, floor, ceiling}
use solana_psm.Curve.Priced.{ray, trading_tokens_to_pool_tokens}
use solana_psm.Curve.Priced.Pool.{
  given_worth, given_value, issued-le-share, burnt-ge-value, burnt-ge-share,
}
use solana_psm.Curve.ConstantPrice
use solana_psm.Curve.RedemptionRate
use solana_psm.Curve.Base.{SwapCurve, Calculator, deposit_without_fees, withdraw_without_fees}
use solana_psm.Curve.Charging.{
  Charged, charge, deposit_single_token_type, withdraw_single_token_type_exact_out,
  SingleTokenTypeResult,
}
use solana_psm.Curve.Charging.Fair.{PricedAt, fixed, redeemed}

pub given_worth_mono :
    (p x y : ℕ) (direction : TradeDirection)
    → x ≤ y
    → given_worth p x direction ≤ given_worth p y direction
given_worth_mono p x y a_to_b le = le
given_worth_mono p x y b_to_a le =
    div_mono (x * p) (y * p) ray (omega arith) (mul-le-mul_right p le)

module _ (m : SplMath) where
  PricedAt-deposit :
      {c : Calculator} {timestamp : Option ℕ} {p : ℕ} (source a b supply : ℕ)
      (direction : TradeDirection)
      → PricedAt m c timestamp p
      → deposit_without_fees m c source a b supply direction timestamp
        ≡ trading_tokens_to_pool_tokens m p source a b supply direction floor
  unfolding deposit_without_fees ConstantPrice.deposit_single_token_type
      RedemptionRate.deposit_single_token_type
  PricedAt-deposit source a b supply direction (fixed c timestamp) = refl
  PricedAt-deposit source a b supply direction (redeemed c now p e) = rw e

  PricedAt-withdraw :
      {c : Calculator} {timestamp : Option ℕ} {p : ℕ} (source a b supply : ℕ)
      (direction : TradeDirection) (round : RoundDirection)
      → PricedAt m c timestamp p
      → withdraw_without_fees m c source a b supply direction round timestamp
        ≡ trading_tokens_to_pool_tokens m p source a b supply direction round
  unfolding withdraw_without_fees ConstantPrice.withdraw_single_token_type_exact_out
      RedemptionRate.withdraw_single_token_type_exact_out
  PricedAt-withdraw source a b supply direction round (fixed c timestamp) = refl
  PricedAt-withdraw source a b supply direction round (redeemed c now p e) = rw e

-- What a deposit of one token is given: both trading fees are those of half the deposit, and at least
-- of one unit, and the pool tokens are at most the share of the supply that the value of what is left
-- is of the value of the reserves, as the curve reckons it: in whole tokens A, rounded down,
-- and at most the share of its exact value of the exact value of the reserves less one token A.
pub record Deposited (fees : Fees) (source a b supply p : ℕ) (direction : TradeDirection)
    (r : SingleTokenTypeResult) : Type 0 where
  pub charged : Charged
  pub less : ℕ
  pub on_half : charge fees (max 1 (source / 2)) ≡ ok charged
  pub left : less + charged.total ≡ source
  pub owner : r.owner_fee ≡ charged.owner
  pub share : r.amount * (b * p / ray + a) ≤ supply * given_worth p less direction
  pub share_of_value :
      r.amount * (b * p + a * ray) ≤ supply * given_value p less direction + r.amount * ray

-- What a withdrawal of one token costs: half the token, rounded up, is taken to be what is left of
-- `pre` after both trading fees, the owner's fee is that of `pre`, and the pool tokens to burn are at
-- least the share of the supply that the value of the token with these fees is of the value of the
-- reserves, as the curve reckons it, and at least the share of its exact value, less one token A, of
-- the exact value of the reserves.
pub record Withdrawn (fees : Fees) (source a b supply p : ℕ) (direction : TradeDirection)
    (r : SingleTokenTypeResult) : Type 0 where
  pub pre : ℕ
  pub gross : ℕ
  pub on_half : pre_trading_fee_amount fees ((source + 1) / 2) ≡ ok pre
  pub added : gross + (source + 1) / 2 ≡ source + pre
  pub covers : source ≤ gross
  pub owner : owner_trading_fee fees pre ≡ ok r.owner_fee
  pub share : supply * given_worth p gross direction ≤ r.amount * (b * p / ray + a)
  pub share_of_value :
      supply * given_value p gross direction ≤ r.amount * (b * p + a * ray) + supply * ray

module _ (m : SplMath) (laws : IsSplMath m) where
  -- On a curve with a price, a deposit of one token that is given any pool tokens is charged and given
  -- its share.
  pub deposit_single-Deposited :
      (c : SwapCurve) (source a b supply p : ℕ) (direction : TradeDirection) (fees : Fees)
      (timestamp : Option ℕ) (r : SingleTokenTypeResult)
      → PricedAt m c.calculator timestamp p
      → 0 < r.amount
      → deposit_single_token_type m c source a b supply direction fees timestamp ≡ ok r
      → Deposited fees source a b supply p direction r
  unfolding deposit_single_token_type
  deposit_single-Deposited c source a b supply p direction fees timestamp r priced some_tokens h =
      elim (if-eq-ok (source == 0) _ _ h) [
        | inl (_, empty) ↦
            let none_given : 0 ≡ r.amount = cc (empty) in ground (arith, none_given, some_tokens)
        | inr (_, run) ↦
            let (half, halves, h1) = >>=-eq-ok (checked_div source 2) _ run in
            let (charged, on_half, h2) = >>=-eq-ok (charge fees (max 1 half)) _ h1 in
            let (less, gap, h3) = >>=-eq-ok (checked_sub source charged.total) _ h2 in
            let (amount, issued, h4) =
              >>=-eq-ok (deposit_without_fees m c.calculator less a b supply direction timestamp) _
                h3 in
            let same : amount ≡ r.amount = cc (h4) in
            let owner : charged.owner ≡ r.owner_fee = cc (h4) in
            let (sum, _) = checked_sub-eq-ok source charged.total gap in
            let (share, share_of_value) =
              issued-le-share m laws p less a b supply direction amount
                (rw (PricedAt-deposit m less a b supply direction priced) at issued) in
            record {
              charged = charged;
              less = less;
              on_half = rw (checked_div-eq-ok source 2 halves).0 at on_half;
              left = omega (arith, sum);
              owner = sym owner;
              share = rw same at share;
              share_of_value = rw same at share_of_value;
            }
      ]

  -- On a curve with a price, a withdrawal of one token, if any is asked for, costs its share and the
  -- share of its fees; this where the share of the token is at least one unit.
  pub withdraw_single-Withdrawn :
      (c : SwapCurve) (source a b supply p : ℕ) (direction : TradeDirection) (fees : Fees)
      (timestamp : Option ℕ) (r : SingleTokenTypeResult)
      → PricedAt m c.calculator timestamp p
      → 0 < source
      → b * p / ray + a ≤ supply * given_worth p source direction
      → withdraw_single_token_type_exact_out m c source a b supply direction fees timestamp ≡ ok r
      → Withdrawn fees source a b supply p direction r
  unfolding withdraw_single_token_type_exact_out
  withdraw_single-Withdrawn c source a b supply p direction fees timestamp r priced asked unit h =
      elim (if-eq-ok (source == 0) _ _ h) [
        | inl (empty, _) ↦ ground (arith, empty, asked)
        | inr (_, run) ↦
            let (plus_one, next, h1) = >>=-eq-ok (checked_add source 1) _ run in
            let (half, halves, h2) = >>=-eq-ok (checked_div plus_one 2) _ h1 in
            let (pre, grossed, h3) = >>=-eq-ok (pre_trading_fee_amount fees half) _ h2 in
            let (owner_fee, owned, h4) = >>=-eq-ok (owner_trading_fee fees pre) _ h3 in
            let (other_half, gap, h5) = >>=-eq-ok (checked_sub source half) _ h4 in
            let (gross, total, h6) = >>=-eq-ok (checked_add other_half pre) _ h5 in
            let (amount, burnt, h7) =
              >>=-eq-ok
                (withdraw_without_fees m c.calculator gross a b supply direction ceiling timestamp)
                _ h6 in
            let same : amount ≡ r.amount = cc (h7) in
            let owner : owner_fee ≡ r.owner_fee = cc (h7) in
            let (one_more, _) = checked_add-eq-ok source 1 next in
            let (split, _) = checked_sub-eq-ok source half gap in
            let (sum, _) = checked_add-eq-ok other_half pre total in
            let is_half : half ≡ (source + 1) / 2 =
              rw one_more at (checked_div-eq-ok plus_one 2 halves).0 in
            let le : source ≤ gross =
              omega (arith, split, sum, pre_trading_fee_amount-ge fees half pre grossed) in
            let more = mul-le-mul_left supply (given_worth_mono p source gross direction le) in
            let share =
              burnt-ge-share m laws p gross a b supply direction amount (le_trans unit more)
                (rw (PricedAt-withdraw m gross a b supply direction ceiling priced) at burnt) in
            record {
              pre = pre;
              gross = gross;
              on_half = rw is_half at grossed;
              added = omega (arith, split, sum, is_half);
              covers = le;
              owner = rw owner at owned;
              share = rw same at share;
              share_of_value =
                  rw same at (burnt-ge-value p gross a b supply amount direction share);
            }
      ]
