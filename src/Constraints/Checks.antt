-- ===== src/Constraints/Checks.antt =====
-- What the constraints let through.
use solana_psm.Common.{◌≤◌, ◌≡◌, ◌↔◌, ok, arith}
use solana_psm.Fees.{Fees}
use solana_psm.Constraints.{SwapConstraints, validate_fees}

-- At least the constraint's trade, owner trade and owner withdraw numerators over the same
-- denominators, and exactly its host fee.
pub record AtLeast (c f : Fees) : Type 0 where
  pub trade : c.trade_fee_numerator ≤ f.trade_fee_numerator
  pub trade_denominator : f.trade_fee_denominator ≡ c.trade_fee_denominator
  pub owner_trade : c.owner_trade_fee_numerator ≤ f.owner_trade_fee_numerator
  pub owner_trade_denominator : f.owner_trade_fee_denominator ≡ c.owner_trade_fee_denominator
  pub owner_withdraw : c.owner_withdraw_fee_numerator ≤ f.owner_withdraw_fee_numerator
  pub owner_withdraw_denominator :
      f.owner_withdraw_fee_denominator ≡ c.owner_withdraw_fee_denominator
  pub host_numerator : f.host_fee_numerator ≡ c.host_fee_numerator
  pub host_denominator : f.host_fee_denominator ≡ c.host_fee_denominator

-- The fees that pass are those with at least the constraint's trade, owner trade and owner withdraw
-- numerators over the same denominators, and exactly its host fee.
pub validate_fees-AtLeast :
    (c : SwapConstraints) (f : Fees) → (validate_fees c f ≡ ok tt) ↔ AtLeast c.fees f
unfolding validate_fees
validate_fees-AtLeast c f = (
  λ h. ground arith,
  λ h. ground (
    arith, h.trade, h.trade_denominator, h.owner_trade, h.owner_trade_denominator, h.owner_withdraw,
    h.owner_withdraw_denominator, h.host_numerator, h.host_denominator,
  ),
)
