-- ===== src/Processor/WithdrawAll/Fee.antt =====
-- When the withdrawal fee is charged (program/src/processor.rs).
use solana_psm.Common.{
  ℕ, ◌≡◌, sym, ◌⊎◌, inl, inr, refl, Calc, if◌then◌else◌, ok, Bool, true, false, not, ◌&&◌, ◌==◌,
}
use solana_psm.Error.{SwapError}
use solana_psm.Fees.{owner_withdraw_fee}
use solana_psm.Runtime.{Runtime, World, AccountInfo}
use solana_psm.Runtime.Action.{lift, pure, lift-eq-ok, lift-eq-ok_last, pure-eq-ok}
use solana_psm.State.{SwapV1}
use solana_psm.Processor.Tokens.{some_or, succeeds, check_pool_fee_info}
use solana_psm.Processor.Tokens.Inversion.{some_or-eq-ok}
use solana_psm.Processor.WithdrawAll.{withdraw_fee_of}

-- The fee for pool tokens: none where the fee account is no good or is the source itself.
pub record IsWithdrawFee (rt : Runtime) (s : SwapV1) (fee_account source : AccountInfo)
    (pool_tokens : ℕ) (w : World) (fee : ℕ) : Type 0 where
  pub is_ok : Bool
  pub account_checked : succeeds (check_pool_fee_info rt s fee_account w) ≡ ok is_ok
  pub charged :
      ((is_ok && not (fee_account.key == source.key) ≡ true)
        × (owner_withdraw_fee s.fees pool_tokens ≡ ok fee))
      ⊎ ((is_ok && not (fee_account.key == source.key) ≡ false) × (fee ≡ 0))

fee_when :
    (c : Bool) (x : Calc ℕ) (e : SwapError) (w : World) (fee : ℕ) (w' : World)
    → (if c then lift (some_or x e) else pure 0) w ≡ ok (fee, w')
    → (w' ≡ w) × (((c ≡ true) × (x ≡ ok fee)) ⊎ ((c ≡ false) × (fee ≡ 0)))
fee_when true x e w fee w' h =
    let (charged, after) = lift-eq-ok_last (some_or x e) fee w w' h in
    (after, inl (refl, some_or-eq-ok x e charged))
fee_when false x e w fee w' h =
    let (none_due, after) = pure-eq-ok 0 fee w w' h in (after, inr (refl, sym none_due))

module _ (rt : Runtime) where
  pub withdraw_fee_of-IsWithdrawFee :
      (s : SwapV1) (fee_account source : AccountInfo) (pool_tokens : ℕ) (w : World) (fee : ℕ)
      (w' : World)
      → withdraw_fee_of rt s fee_account source pool_tokens w ≡ ok (fee, w')
      → (w' ≡ w) × IsWithdrawFee rt s fee_account source pool_tokens w fee
  unfolding withdraw_fee_of
  withdraw_fee_of-IsWithdrawFee s fee_account source pool_tokens w fee w' h =
      let (is_ok, account_checked, r1) =
        lift-eq-ok (succeeds (check_pool_fee_info rt s fee_account w)) _ w h in
      let (after, charged) =
        fee_when (is_ok && not (fee_account.key == source.key)) _ _ w fee w' r1 in
      (after, record { is_ok = is_ok; account_checked = account_checked; charged = charged })
