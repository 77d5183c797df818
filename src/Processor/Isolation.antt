-- ===== src/Processor/Isolation.antt =====
-- Trading does not change the program's own accounts (program/src/processor.rs).
pub mod Swap
pub mod Deposits
pub mod Withdrawals
use solana_psm.Common.{ℕ, Bool, true, false, ◌&&◌, not, ◌==◌, ltb, Option, none, some, checked_sub}
use solana_psm.Error.{SwapError}
use solana_psm.Runtime.{Pubkey, Runtime, AccountInfo, burn, mint_to, transfer_checked}
use solana_psm.Runtime.Action.{◌>>=◌, pure, lift, read}
use solana_psm.Runtime.Isolation.{
  IsIsolated, Keeps, Keeps-bind, Keeps-pure, Keeps-lift, Keeps-read, Keeps-if, Keeps-invoke,
}
use solana_psm.Fees.{host_fee}
use solana_psm.State.{SwapV1}
use solana_psm.Processor.Tokens.{
  some_or, to_u64, succeeds, unpack_token_account, check_pool_fee_info,
}
use solana_psm.Processor.Calls.{token_burn, token_mint_to, token_transfer}
use solana_psm.Processor.OwnerFee.{Minting, mint_fee, pay_host, pay_pool}

module _ (rt : Runtime) (program : Pubkey) (isolated : IsIsolated rt program) where
  pub Keeps-burn :
      (swap token_program account mint authority bump amount : ℕ)
      → Keeps program (token_burn rt swap token_program account mint authority bump amount)
  unfolding token_burn
  Keeps-burn swap token_program account mint authority bump amount =
      Keeps-bind program (lift (rt.build (burn token_program account mint authority amount))) _
        (Keeps-lift program _) (λ _. Keeps-invoke program rt _ _ _ isolated)

  pub Keeps-mint_to :
      (swap token_program mint destination authority bump amount : ℕ)
      → Keeps program (token_mint_to rt swap token_program mint destination authority bump amount)
  unfolding token_mint_to
  Keeps-mint_to swap token_program mint destination authority bump amount =
      Keeps-bind program (lift (rt.build (mint_to token_program mint destination authority amount)))
        _ (Keeps-lift program _) (λ _. Keeps-invoke program rt _ _ _ isolated)

  pub Keeps-transfer :
      (swap token_program source mint destination authority bump amount decimals : ℕ)
      → Keeps program (
          token_transfer rt swap token_program source mint destination authority bump amount
            decimals)
  unfolding token_transfer
  Keeps-transfer swap token_program source mint destination authority bump amount decimals =
      Keeps-bind program
        (lift (
          rt.build
            (transfer_checked token_program source mint destination authority amount decimals)))
        _ (Keeps-lift program _) (λ _. Keeps-invoke program rt _ _ _ isolated)

  Keeps-mint_fee :
      (k : Minting) (s : SwapV1) (destination : AccountInfo) (pool_tokens : ℕ)
      → Keeps program (mint_fee rt k s destination pool_tokens)
  Keeps-mint_fee k s destination pool_tokens =
      Keeps-bind program (lift (to_u64 pool_tokens)) _ (Keeps-lift program _)
        (λ amount. Keeps-mint_to _ _ _ _ _ _ _)

  pub Keeps-pay_host :
      (k : Minting) (s : SwapV1) (host : Option AccountInfo) (pool_tokens : ℕ)
      → Keeps program (pay_host rt k s host pool_tokens)
  unfolding pay_host
  Keeps-pay_host k s none pool_tokens = Keeps-pure program pool_tokens
  Keeps-pay_host k s (some info) pool_tokens =
      Keeps-bind program (read (unpack_token_account rt info (some k.pool_mint))) _
        (Keeps-read program _)
        (λ _.
          Keeps-bind program
            (lift (some_or (host_fee s.fees pool_tokens) SwapError.fee_calculation_failure)) _
            (Keeps-lift program _)
            (λ fee.
              Keeps-if program (ltb 0 fee) _ _
                (Keeps-bind program
                  (lift (some_or (checked_sub pool_tokens fee) SwapError.fee_calculation_failure)) _
                  (Keeps-lift program _)
                  (λ left.
                    Keeps-bind program (mint_fee rt k s info fee) _ (Keeps-mint_fee k s info fee)
                      (λ _. Keeps-pure program left)))
                (Keeps-pure program pool_tokens)))

  pub Keeps-pay_pool :
      (k : Minting) (s : SwapV1) (info : AccountInfo) (wanted : Bool) (pool_tokens : ℕ)
      → Keeps program (pay_pool rt k s info wanted pool_tokens)
  unfolding pay_pool
  Keeps-pay_pool k s info wanted pool_tokens =
      Keeps-bind program (read (λ w. succeeds (check_pool_fee_info rt s info w))) _
        (Keeps-read program _)
        (λ is_ok.
          Keeps-if program (is_ok && wanted) _ _ (Keeps-mint_fee k s info pool_tokens)
            (Keeps-pure program tt))
