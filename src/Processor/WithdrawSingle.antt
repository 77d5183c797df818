-- ===== src/Processor/WithdrawSingle.antt =====
-- The handler of `WithdrawSingleTokenTypeExactAmountOut` (program/src/processor.rs).
pub mod Checks
pub mod Value
use solana_psm.Common.{
  ℕ, true, Option, some, List, ◌==◌, ltb, if◌then◌else◌, checked_add, checked_sub,
}
use solana_psm.Error.{SwapError, from_swap_error}
use solana_psm.Math.{SplMath}
use solana_psm.Curve.Calculator.{by_direction}
use solana_psm.Curve.Charging.{withdraw_single_token_type_exact_out, SingleTokenTypeResult}
use solana_psm.Runtime.{Pubkey, Runtime, AccountInfo, Mint}
use solana_psm.Runtime.Action.{Action, ◌>>=◌, ◌>>◌, pure, lift, read, fail_if, next}
use solana_psm.State.{unpack}
use solana_psm.Processor.Tokens.{
  some_or, to_u64, unpack_token_account, unpack_mint, get_current_timestamp_opt,
}
use solana_psm.Processor.Calls.{token_burn, token_transfer}
use solana_psm.Processor.Accounts.{PoolAccounts, check_accounts}
use solana_psm.Processor.OwnerFee.{Minting, first, pay_host, pay_pool}
use solana_psm.Processor.WithdrawAll.{withdraw_fee_of}
use solana_psm.Processor.Single.{
  Sides, side_of, user_a, user_b, with_reserve, owner_fee_in_pool_tokens,
}

-- The accounts of the instruction, in order; the last may be missing.
pub record WithdrawAccounts : Type 0 where
  pub swap_info : AccountInfo
  pub authority_info : AccountInfo
  pub user_transfer_authority_info : AccountInfo
  pub pool_mint_info : AccountInfo
  pub source_info : AccountInfo
  pub swap_token_a_info : AccountInfo
  pub swap_token_b_info : AccountInfo
  pub destination_info : AccountInfo
  pub pool_fee_account_info : AccountInfo
  pub destination_token_mint_info : AccountInfo
  pub pool_token_program_info : AccountInfo
  pub destination_token_program_info : AccountInfo
  pub host_fee_account_info : Option AccountInfo

unfoldable pub read_withdraw_accounts : List AccountInfo → Action WithdrawAccounts
read_withdraw_accounts accounts = do
  (swap_info, r1) ← next accounts
  (authority_info, r2) ← next r1
  (user_transfer_authority_info, r3) ← next r2
  (pool_mint_info, r4) ← next r3
  (source_info, r5) ← next r4
  (swap_token_a_info, r6) ← next r5
  (swap_token_b_info, r7) ← next r6
  (destination_info, r8) ← next r7
  (pool_fee_account_info, r9) ← next r8
  (destination_token_mint_info, r10) ← next r9
  (pool_token_program_info, r11) ← next r10
  (destination_token_program_info, r12) ← next r11
  pure (record {
    swap_info = swap_info;
    authority_info = authority_info;
    user_transfer_authority_info = user_transfer_authority_info;
    pool_mint_info = pool_mint_info;
    source_info = source_info;
    swap_token_a_info = swap_token_a_info;
    swap_token_b_info = swap_token_b_info;
    destination_info = destination_info;
    pool_fee_account_info = pool_fee_account_info;
    destination_token_mint_info = destination_token_mint_info;
    pool_token_program_info = pool_token_program_info;
    destination_token_program_info = destination_token_program_info;
    host_fee_account_info = first r12;
  })

abbrev pub pool_accounts : WithdrawAccounts → Sides → PoolAccounts
pool_accounts acc side = record {
  swap_account_info = acc.swap_info;
  authority_info = acc.authority_info;
  token_a_info = acc.swap_token_a_info;
  token_b_info = acc.swap_token_b_info;
  pool_mint_info = acc.pool_mint_info;
  pool_token_program_info = acc.pool_token_program_info;
  user_token_a_info = user_a side.direction acc.destination_info;
  user_token_b_info = user_b side.direction acc.destination_info;
  pool_fee_account_info = some acc.pool_fee_account_info;
}

abbrev pub minting : WithdrawAccounts → Minting
minting acc = record {
  swap = acc.swap_info.key;
  token_program = acc.pool_token_program_info.key;
  pool_mint = acc.pool_mint_info.key;
  authority = acc.authority_info.key;
}

-- The pool mint, what the curve answered (the pool tokens to burn), and the fee in pool tokens.
pub record Cost : Type 0 where
  pub pool_mint : Mint
  pub result : SingleTokenTypeResult
  pub withdraw_fee : ℕ

module _ (m : SplMath) (rt : Runtime) where
  -- The pool and its reserves, once the given keys have been checked.
  unfoldable pub check_withdraw : Pubkey → WithdrawAccounts → Action Sides
  check_withdraw program_id acc = do
    s ← read (λ w. unpack rt (w acc.swap_info.key).bytes)
    destination_account ←
        read
          (unpack_token_account rt acc.destination_info (some acc.destination_token_mint_info.key))
    token_a ← read (unpack_token_account rt acc.swap_token_a_info (some s.token_a_mint))
    token_b ← read (unpack_token_account rt acc.swap_token_b_info (some s.token_b_mint))
    direction ← lift (side_of destination_account token_a token_b)
    let side : Sides = record {
      state = s;
      token_a = token_a;
      token_b = token_b;
      direction = direction;
    }
    check_accounts rt s program_id (pool_accounts acc side)
    pure side

  -- The pool tokens that the curve asks for, with the fee on them.
  unfoldable pub cost_of_withdraw : ℕ → WithdrawAccounts → Sides → Action Cost
  cost_of_withdraw destination_token_amount acc side = do
    pool_mint ← read (unpack_mint rt acc.pool_mint_info)
    timestamp ← lift (get_current_timestamp_opt rt side.state)
    result ← lift (
        some_or
          (withdraw_single_token_type_exact_out m side.state.swap_curve destination_token_amount
            side.token_a.amount side.token_b.amount pool_mint.supply side.direction side.state.fees
            timestamp)
          SwapError.zero_trading_tokens)
    withdraw_fee ←
        withdraw_fee_of rt side.state acc.pool_fee_account_info acc.source_info result.amount
    pure (record { pool_mint = pool_mint; result = result; withdraw_fee = withdraw_fee })

  -- The owner's fee, as pool tokens, by the reserves and the supply after the withdrawal and
  -- without the fee.
  unfoldable pub pay_owner : ℕ → WithdrawAccounts → Sides → Cost → Action (Unit {0})
  pay_owner destination_token_amount acc side cost = do
    shrunk ← lift (
        some_or
          (checked_sub (by_direction side.direction side.token_a.amount side.token_b.amount)
            destination_token_amount)
          SwapError.fee_calculation_failure)
    reserve ←
        lift (some_or (checked_sub shrunk cost.result.owner_fee) SwapError.fee_calculation_failure)
    let reserves = with_reserve side.direction reserve side.token_a.amount side.token_b.amount
    supply ← lift (
        some_or (checked_sub cost.pool_mint.supply cost.result.amount)
          SwapError.fee_calculation_failure)
    owner_fee_pool ← lift (
        owner_fee_in_pool_tokens m rt side.state side.direction cost.result.owner_fee reserves.0
          reserves.1 supply)
    (if ltb 0 owner_fee_pool
        then (do
          left ← pay_host rt (minting acc) side.state acc.host_fee_account_info owner_fee_pool
          pay_pool rt (minting acc) side.state acc.pool_fee_account_info true left)
        else pure tt)

  unfoldable pub pay_owner_if_due : ℕ → WithdrawAccounts → Sides → Cost → Action (Unit {0})
  pay_owner_if_due destination_token_amount acc side cost =
      if ltb 0 cost.result.owner_fee
      then pay_owner destination_token_amount acc side cost
      else pure tt

  -- The pool tokens that the user pays in all are some, and not more than the user allows.
  unfoldable pub check_cost : ℕ → Cost → Action (Unit {0})
  check_cost maximum cost = do
    pool_token_amount ←
        lift
          (some_or (checked_add cost.result.amount cost.withdraw_fee) SwapError.calculation_failure)
    asked ← lift (to_u64 pool_token_amount)
    fail_if (ltb maximum asked) (from_swap_error SwapError.exceeded_slippage)
    fail_if (pool_token_amount == 0) (from_swap_error SwapError.zero_trading_tokens)

  -- The fee to its account, the pool tokens burnt, the token out.
  unfoldable pub settle_withdraw : ℕ → WithdrawAccounts → Sides → Cost → Action (Unit {0})
  settle_withdraw destination_token_amount acc side cost = do
    (if ltb 0 cost.withdraw_fee
        then (do
          fee ← lift (to_u64 cost.withdraw_fee)
          token_transfer rt acc.swap_info.key acc.pool_token_program_info.key acc.source_info.key
              acc.pool_mint_info.key acc.pool_fee_account_info.key
              acc.user_transfer_authority_info.key side.state.bump_seed fee cost.pool_mint.decimals)
        else pure tt)
    burnt ← lift (to_u64 cost.result.amount)
    token_burn rt acc.swap_info.key acc.pool_token_program_info.key acc.source_info.key
        acc.pool_mint_info.key acc.user_transfer_authority_info.key side.state.bump_seed burnt
    destination_mint ← read (unpack_mint rt acc.destination_token_mint_info)
    token_transfer rt acc.swap_info.key acc.destination_token_program_info.key
        (by_direction side.direction acc.swap_token_a_info acc.swap_token_b_info).key
        acc.destination_token_mint_info.key acc.destination_info.key acc.authority_info.key
        side.state.bump_seed destination_token_amount destination_mint.decimals

  unfoldable pub process_withdraw_single_token_type_exact_amount_out :
      Pubkey → (destination_token_amount maximum : ℕ) → List AccountInfo → Action (Unit {0})
  process_withdraw_single_token_type_exact_amount_out program_id destination_token_amount maximum
        accounts =
      do
        acc ← read_withdraw_accounts accounts
        side ← check_withdraw program_id acc
        cost ← cost_of_withdraw destination_token_amount acc side
        pay_owner_if_due destination_token_amount acc side cost
        check_cost maximum cost
        settle_withdraw destination_token_amount acc side cost
