-- ===== src/Curve/Charging/Fair.antt =====
-- What a swap with fees does to the reserves.
use solana_psm.Common.{
  ℕ, refl, sym, ap, ◌∙◌, Bool-cases, inl, inr, ltb, ◌+◌, ◌-◌, ◌*◌, ◌≤◌, ◌<◌, ◌≡◌, ok, Option, some,
  >>=-eq-ok, arith, checked_add, checked_sub, checked_add-eq-ok, checked_sub-eq-ok,
}
use solana_psm.Fees.{Fees, pre_trading_fee_amount}
use solana_psm.Math.{SplMath, IsSplMath}
use solana_psm.Curve.Calculator.{TradeDirection, a_to_b, b_to_a, SwapWithoutFeesResult}
use solana_psm.Curve.Priced.{swap_at_price, ray}
use solana_psm.Curve.Priced.Swap.{swap_at_price-fair, value_in, value_out}
use solana_psm.Curve.RedemptionRate.{RedemptionRateCurve, get_conversion_rate}
use solana_psm.Curve.RedemptionRate
use solana_psm.Curve.ConstantPrice
use solana_psm.Curve.ConstantPrice.{ConstantPriceCurve}
use solana_psm.Curve.Base.{SwapCurve, Calculator, price, redemption_rate, swap_without_fees}
use solana_psm.Curve.Charging.{SwapResult, Charged, charge, recharge, swap}

-- The parts of a swap that gave a result.
pub record Parts (m : SplMath) (c : SwapCurve) (source ss sd : ℕ) (direction : TradeDirection)
    (fees : Fees) (timestamp : Option ℕ) (r : SwapResult) : Type 0 where
  pub charged : Charged
  pub used : SwapWithoutFeesResult
  pub final : Charged
  pub first_charge : charge fees source ≡ ok charged
  pub enough : charged.total ≤ source
  pub exchanged :
      swap_without_fees m c.calculator (source - charged.total) ss sd direction timestamp ≡ ok used
  pub last_charge :
      recharge fees charged used.source_amount_swapped (source - charged.total) ≡ ok final
  pub taken : r.source_amount_swapped ≡ used.source_amount_swapped + final.total
  pub given : r.destination_amount_swapped ≡ used.destination_amount_swapped
  pub new_source : r.new_swap_source_amount ≡ ss + r.source_amount_swapped
  pub new_destination : r.new_swap_destination_amount + r.destination_amount_swapped ≡ sd
  pub trade : r.trade_fee ≡ final.trade
  pub owner : r.owner_fee ≡ final.owner

module _ (m : SplMath) where
  pub swap-Parts :
      (c : SwapCurve) (source ss sd : ℕ) (direction : TradeDirection) (fees : Fees)
      (timestamp : Option ℕ) (r : SwapResult)
      → swap m c source ss sd direction fees timestamp ≡ ok r
      → Parts m c source ss sd direction fees timestamp r
  unfolding swap
  swap-Parts c source ss sd direction fees timestamp r h =
      let (charged, e1, h1) = >>=-eq-ok (charge fees source) _ h in
      let (less, e2, h2) = >>=-eq-ok (checked_sub source charged.total) _ h1 in
      let (gap, room) = checked_sub-eq-ok source charged.total e2 in
      let exact : less ≡ source - charged.total = omega arith in
      let (used, e3, h3) =
        >>=-eq-ok (swap_without_fees m c.calculator less ss sd direction timestamp) _ h2 in
      let (final, e4, h4) =
        >>=-eq-ok (recharge fees charged used.source_amount_swapped less) _ h3 in
      let (taken, e5, h5) = >>=-eq-ok (checked_add used.source_amount_swapped final.total) _ h4 in
      let (new_source, e6, h6) = >>=-eq-ok (checked_add ss taken) _ h5 in
      let (new_destination, e7, h7) =
        >>=-eq-ok (checked_sub sd used.destination_amount_swapped) _ h6 in
      let sum = checked_add-eq-ok used.source_amount_swapped final.total e5 in
      let source_sum = checked_add-eq-ok ss taken e6 in
      let rest = checked_sub-eq-ok sd used.destination_amount_swapped e7 in
      record {
        charged = charged;
        used = used;
        final = final;
        first_charge = e1;
        enough = room;
        exchanged = rw (← exact) e3;
        last_charge = rw (← exact) e4;
        taken = ground (arith, h7);
        given = ground (arith, h7);
        new_source = ground (arith, h7);
        new_destination = ground (arith, h7);
        trade = ground (arith, h7);
        owner = ground (arith, h7);
      }

-- The price at which a curve exchanges: a constant, or the conversion rate of the time.
pub data PricedAt (m : SplMath) : Calculator → Option ℕ → ℕ → Type 0 where
  fixed :
      (c : ConstantPriceCurve) (timestamp : Option ℕ)
      → PricedAt m (price c) timestamp c.token_b_price
  redeemed :
      (c : RedemptionRateCurve) (now p : ℕ)
      → get_conversion_rate m c now ≡ ok p
      → PricedAt m (redemption_rate c) (some now) p

-- The value of a source and a destination amount, in token A and scaled by RAY.
abbrev pub value_of : ℕ → TradeDirection → ℕ → ℕ → ℕ
value_of p a_to_b source destination = source * ray + destination * p
value_of p b_to_a source destination = source * p + destination * ray

pub charge-total :
    (fees : Fees) (a : ℕ) (x : Charged) → charge fees a ≡ ok x → x.total ≡ x.trade + x.owner
unfolding charge checked_add
charge-total fees a x h = ground arith

pub recharge-total :
    (fees : Fees) (charged : Charged) (used less : ℕ) (x : Charged)
    → charged.total ≡ charged.trade + charged.owner
    → recharge fees charged used less ≡ ok x
    → x.total ≡ x.trade + x.owner
unfolding recharge
recharge-total fees charged used less x e h = elim (Bool-cases (ltb used less)) [
  | inl part ↦
      let (pre, _, h') = >>=-eq-ok (pre_trading_fee_amount fees used) _ (rw part at h) in
      charge-total fees pre x h'
  | inr all ↦ ground arith
]

module _ (m : SplMath) where
  pub PricedAt-swap :
      {c : Calculator} {timestamp : Option ℕ} {p : ℕ} (source ss sd : ℕ)
      (direction : TradeDirection)
      → PricedAt m c timestamp p
      → swap_without_fees m c source ss sd direction timestamp ≡ swap_at_price m p source direction
  unfolding swap_without_fees ConstantPrice.swap_without_fees RedemptionRate.swap_without_fees
  PricedAt-swap source ss sd direction (fixed c timestamp) = refl
  PricedAt-swap source ss sd direction (redeemed c now p e) = rw e

-- The arithmetic of one direction each.
value-a_to_b :
    (p ss taken given fees nd sd : ℕ)
    → nd + given ≡ sd
    → given * p ≤ taken * ray
    → value_of p a_to_b (ss + fees) sd ≤ value_of p a_to_b (ss + (taken + fees)) nd
value-a_to_b p ss taken given fees nd sd e h = omega (arith, ap (λ (t : ℕ). t * p) e)

value-b_to_a :
    (p ss taken given fees nd sd : ℕ)
    → nd + given ≡ sd
    → given * ray ≤ taken * p
    → value_of p b_to_a (ss + fees) sd ≤ value_of p b_to_a (ss + (taken + fees)) nd
value-b_to_a p ss taken given fees nd sd e h = omega arith

value_gain :
    (p ss nd sd fees : ℕ) (direction : TradeDirection) (x : SwapWithoutFeesResult)
    → nd + x.destination_amount_swapped ≡ sd
    → value_out p direction x ≤ value_in p direction x
    → value_of p direction (ss + fees) sd
      ≤ value_of p direction (ss + (x.source_amount_swapped + fees)) nd
value_gain p ss nd sd fees a_to_b x e h = value-a_to_b p ss _ _ fees nd sd e h
value_gain p ss nd sd fees b_to_a x e h = value-b_to_a p ss _ _ fees nd sd e h

module _ (m : SplMath) (laws : IsSplMath m) where
  -- On a curve with a price, a swap moves exactly what it reports: the source reserve grows by what
  -- was taken, and the destination reserve shrinks by what was given. What was taken is more than
  -- the two fees, and the pool gains in value at least the two fees.
  pub swap_gains_fees :
      (c : SwapCurve) (source ss sd p : ℕ) (direction : TradeDirection) (fees : Fees)
      (timestamp : Option ℕ) (r : SwapResult)
      → PricedAt m c.calculator timestamp p
      → swap m c source ss sd direction fees timestamp ≡ ok r
      → (r.new_swap_source_amount ≡ ss + r.source_amount_swapped)
        × (r.new_swap_destination_amount + r.destination_amount_swapped ≡ sd)
        × (r.trade_fee + r.owner_fee < r.source_amount_swapped)
        × (value_of p direction (ss + (r.trade_fee + r.owner_fee)) sd
            ≤ value_of p direction r.new_swap_source_amount r.new_swap_destination_amount)
  swap_gains_fees c source ss sd p direction fees timestamp r priced h =
      let q = swap-Parts m c source ss sd direction fees timestamp r h in
      let less = source - q.charged.total in
      let (_, taken, given, fair) =
        swap_at_price-fair m laws p less direction q.used
          (sym (PricedAt-swap m less ss sd direction priced) ∙ q.exchanged) in
      let first = charge-total fees source q.charged q.first_charge in
      let total = recharge-total fees q.charged _ less q.final first q.last_charge in
      let sum : q.final.total ≡ r.trade_fee + r.owner_fee =
        ground (arith, total, q.trade, q.owner) in
      let source_sum : r.new_swap_source_amount
          ≡ ss + (q.used.source_amount_swapped + q.final.total) =
        ground (arith, q.new_source, q.taken) in
      let rest : r.new_swap_destination_amount + q.used.destination_amount_swapped ≡ sd =
        ground (arith, q.new_destination, q.given) in
      (
        q.new_source,
        q.new_destination,
        omega (arith, sum, q.taken, taken),
        rw (source_sum, ← sum)
            (value_gain p ss r.new_swap_destination_amount sd q.final.total direction q.used rest
              fair),
      )
