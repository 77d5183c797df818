-- ===== src/Curve/Charging/Within.antt =====
-- A swap with at most one of the two fees takes no more than was offered.
use solana_psm.Common.{
  ℕ, ◌+◌, ◌-◌, ◌*◌, ◌/◌, ◌≤◌, ◌<◌, ◌≡◌, ◌⊎◌, inl, inr, ok, Option, arith, max, sym, ap, ◌∙◌, ltb,
  >>=-eq-ok, Bool-cases, checked_add,
}
use solana_psm.Common.Division.{ceil, ceil-le, div_mono}
use solana_psm.Fees.{
  Fees, pre_fee_amount, calculate_fee, trading_fee, owner_trading_fee, pre_trading_fee_amount,
}
use solana_psm.Fees.Amount.{calculate_fee-eq-ok, pre_fee_amount-eq-ok}
use native.Mathlib.Nat.{lt-div-mul-add, mul-le-mul_right}
use solana_psm.Math.{SplMath, IsSplMath}
use solana_psm.Curve.Calculator.{TradeDirection}
use solana_psm.Curve.Base.{SwapCurve}
use solana_psm.Curve.Priced.Swap.{swap_at_price-fair}
use solana_psm.Curve.Charging.{SwapResult, Charged, charge, recharge, swap}
use solana_psm.Curve.Charging.Fair.{swap-Parts, PricedAt, PricedAt-swap}

-- If less is used than is left after the fee, the amount before fees that belongs to it is at most
-- the offered amount.
pre-le-offer :
    (offer used n d : ℕ)
    → n < d
    → used + max 1 (offer * n / d) < offer
    → ceil (used * d) (d - n) ≤ offer
pre-le-offer offer used n d nd h =
    let whole : d - n + n ≡ d = omega arith in
    let split : offer * (d - n) + offer * n ≡ offer * d =
      omega (arith, ap (λ (t : ℕ). offer * t) whole) in
    let d0 : 0 < d = omega arith in
    let fee = lt-div-mul-add {a = offer * n} d0 in
    let below : used + offer * n / d + 1 ≤ offer = omega arith in
    ceil-le (used * d) (d - n) offer (omega arith)
      (omega (arith, split, fee, mul-le-mul_right d below))

-- One fee, charged again on what was used: the sum stays within the offer.
recharge-le-offer :
    (offer used n d first pre fee : ℕ)
    → calculate_fee offer n d ≡ ok first
    → used + first < offer
    → pre_fee_amount used n d ≡ ok pre
    → calculate_fee pre n d ≡ ok fee
    → used + fee ≤ offer
recharge-le-offer offer used n d first pre fee h1 less h2 h3 = ground (
  arith,
  calculate_fee-eq-ok offer n d first h1,
  pre_fee_amount-eq-ok used n d pre h2,
  calculate_fee-eq-ok pre n d fee h3,
  pre-le-offer offer used n d,
  mul-le-mul_right {m = pre} {n = offer} n,
  div_mono (pre * n) (offer * n) d,
)

-- With one of the two numerators zero, the fees of an amount are those of the other fraction.
abbrev SingleFee : Fees → Type 0
SingleFee f = (f.trade_fee_numerator ≡ 0) ⊎ (f.owner_trade_fee_numerator ≡ 0)

charge-trade_only :
    (f : Fees) (a : ℕ) (x : Charged)
    → f.owner_trade_fee_numerator ≡ 0
    → charge f a ≡ ok x
    → calculate_fee a f.trade_fee_numerator f.trade_fee_denominator ≡ ok x.total
unfolding charge trading_fee owner_trading_fee checked_add
charge-trade_only f a x z h =
    let (t, et, h1) =
      >>=-eq-ok (calculate_fee a f.trade_fee_numerator f.trade_fee_denominator) _ h in
    let (o, eo, h2) =
      >>=-eq-ok (calculate_fee a f.owner_trade_fee_numerator f.owner_trade_fee_denominator) _ h1 in
    ground (arith, et, h2, calculate_fee-eq-ok a _ _ o eo)

charge-owner_only :
    (f : Fees) (a : ℕ) (x : Charged)
    → f.trade_fee_numerator ≡ 0
    → charge f a ≡ ok x
    → calculate_fee a f.owner_trade_fee_numerator f.owner_trade_fee_denominator ≡ ok x.total
unfolding charge trading_fee owner_trading_fee checked_add
charge-owner_only f a x z h =
    let (t, et, h1) =
      >>=-eq-ok (calculate_fee a f.trade_fee_numerator f.trade_fee_denominator) _ h in
    let (o, eo, h2) =
      >>=-eq-ok (calculate_fee a f.owner_trade_fee_numerator f.owner_trade_fee_denominator) _ h1 in
    ground (arith, eo, h2, calculate_fee-eq-ok a _ _ t et)

pre-trade_only :
    (f : Fees) (a : ℕ)
    → f.owner_trade_fee_numerator ≡ 0
    → pre_trading_fee_amount f a ≡ pre_fee_amount a f.trade_fee_numerator f.trade_fee_denominator
unfolding pre_trading_fee_amount pre_fee_amount
pre-trade_only f a z = ground arith

pre-owner_only :
    (f : Fees) (a : ℕ)
    → f.trade_fee_numerator ≡ 0
    → pre_trading_fee_amount f a
      ≡ pre_fee_amount a f.owner_trade_fee_numerator f.owner_trade_fee_denominator
unfolding pre_trading_fee_amount
pre-owner_only f a z = ground arith

-- The amount used with its fees, where the curve left some of the offer.
charged_again :
    (f : Fees) (offer used pre : ℕ) (first again : Charged)
    → SingleFee f
    → charge f offer ≡ ok first
    → used + first.total < offer
    → pre_trading_fee_amount f used ≡ ok pre
    → charge f pre ≡ ok again
    → used + again.total ≤ offer
charged_again f offer used pre first again (inl z) h1 less h2 h3 =
    recharge-le-offer offer used _ _ first.total pre again.total
      (charge-owner_only f offer first z h1) less (sym (pre-owner_only f used z) ∙ h2)
      (charge-owner_only f pre again z h3)
charged_again f offer used pre first again (inr z) h1 less h2 h3 =
    recharge-le-offer offer used _ _ first.total pre again.total
      (charge-trade_only f offer first z h1) less (sym (pre-trade_only f used z) ∙ h2)
      (charge-trade_only f pre again z h3)

recharge-le :
    (f : Fees) (offer used : ℕ) (first final : Charged)
    → SingleFee f
    → charge f offer ≡ ok first
    → first.total ≤ offer
    → used ≤ offer - first.total
    → recharge f first used (offer - first.total) ≡ ok final
    → used + final.total ≤ offer
unfolding recharge
recharge-le f offer used first final single h1 room le h =
    elim (Bool-cases (ltb used (offer - first.total))) [
      | inl part ↦
          let (pre, ep, again) = >>=-eq-ok (pre_trading_fee_amount f used) _ (rw part at h) in
          charged_again f offer used pre first final single h1 (ground arith) ep again
      | inr all ↦ ground arith
    ]

module _ (m : SplMath) (laws : IsSplMath m) where
  -- On a curve with a price, and with one of the two trading fee numerators zero, a swap takes from
  -- the user no more than was offered.
  pub swap-le-offer :
      (c : SwapCurve) (source ss sd p : ℕ) (direction : TradeDirection) (fees : Fees)
      (timestamp : Option ℕ) (r : SwapResult)
      → PricedAt m c.calculator timestamp p
      → SingleFee fees
      → swap m c source ss sd direction fees timestamp ≡ ok r
      → r.source_amount_swapped ≤ source
  swap-le-offer c source ss sd p direction fees timestamp r priced single h =
      let q = swap-Parts m c source ss sd direction fees timestamp r h in
      let less = source - q.charged.total in
      let (le, taken, given, fair) =
        swap_at_price-fair m laws p less direction q.used
          (sym (PricedAt-swap m less ss sd direction priced) ∙ q.exchanged) in
      omega (
        arith,
        q.taken,
        recharge-le fees source q.used.source_amount_swapped q.charged q.final single q.first_charge
            q.enough le q.last_charge,
      )
