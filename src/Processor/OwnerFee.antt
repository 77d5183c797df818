-- ===== src/Processor/OwnerFee.antt =====
-- How a handler mints the owner's trading fee as pool tokens (program/src/processor.rs).
use solana_psm.Common.{
  ℕ, Bool, ◌&&◌, Option, none, some, List, [], ◌∷◌, ltb, if◌then◌else◌, checked_sub,
}
use solana_psm.Error.{SwapError}
use solana_psm.Fees.{host_fee}
use solana_psm.Runtime.{Pubkey, Runtime, AccountInfo}
use solana_psm.Runtime.Action.{Action, ◌>>=◌, ◌>>◌, pure, lift, read}
use solana_psm.State.{SwapV1}
use solana_psm.Processor.Tokens.{
  some_or, succeeds, to_u64, unpack_token_account, check_pool_fee_info,
}
use solana_psm.Processor.Calls.{token_mint_to}

-- The keys that every minting of a fee uses.
pub record Minting : Type 0 where
  pub swap : Pubkey
  pub token_program : Pubkey
  pub pool_mint : Pubkey
  pub authority : Pubkey

-- `next`, where no account is no error.
abbrev pub first : List AccountInfo → Option AccountInfo
first [] = none
first (info ∷ rest) = some info

module _ (rt : Runtime) where
  abbrev pub mint_fee : Minting → SwapV1 → AccountInfo → ℕ → Action (Unit {0})
  mint_fee k s destination pool_tokens = do
    amount ← lift (to_u64 pool_tokens)
    token_mint_to rt k.swap k.token_program k.pool_mint destination.key k.authority s.bump_seed
        amount

  -- The host's part of the fee, if a host account is given; what is left of the pool tokens.
  unfoldable pub pay_host : Minting → SwapV1 → Option AccountInfo → ℕ → Action ℕ
  pay_host k s none pool_token_amount = pure pool_token_amount
  pay_host k s (some host_fee_account_info) pool_token_amount = do
    read (unpack_token_account rt host_fee_account_info (some k.pool_mint))
    host ← lift (some_or (host_fee s.fees pool_token_amount) SwapError.fee_calculation_failure)
    (if ltb 0 host
        then (do
          left ←
              lift (some_or (checked_sub pool_token_amount host) SwapError.fee_calculation_failure)
          mint_fee k s host_fee_account_info host
          pure left)
        else pure pool_token_amount)

  -- What is left goes to the pool's fee account, if it is a good one and the handler wants it minted.
  unfoldable pub pay_pool : Minting → SwapV1 → AccountInfo → Bool → ℕ → Action (Unit {0})
  pay_pool k s pool_fee_account_info wanted pool_token_amount = do
    is_ok ← read (λ w. succeeds (check_pool_fee_info rt s pool_fee_account_info w))
    (if is_ok && wanted then mint_fee k s pool_fee_account_info pool_token_amount else pure tt)
