-- ===== src/Processor/DepositSingle.antt =====
-- The handler of `DepositSingleTokenTypeExactAmountIn` (program/src/processor.rs).
pub mod Checks
pub mod Value
use solana_psm.Common.{
  ℕ, not, Option, none, some, List, ◌==◌, ltb, if◌then◌else◌, checked_add, checked_sub,
}
use solana_psm.Error.{SwapError, from_swap_error}
use solana_psm.Math.{SplMath}
use solana_psm.Curve.Calculator.{by_direction}
use solana_psm.Curve.Base.{allows_deposits}
use solana_psm.Curve.Charging.{deposit_single_token_type, SingleTokenTypeResult}
use solana_psm.Runtime.{Pubkey, Runtime, AccountInfo, Mint}
use solana_psm.Runtime.Action.{Action, ◌>>=◌, ◌>>◌, pure, lift, read, fail_if, next}
use solana_psm.State.{SwapV1, unpack}
use solana_psm.Processor.Tokens.{
  some_or, to_u64, unpack_token_account, unpack_mint, get_current_timestamp_opt,
}
use solana_psm.Processor.Calls.{token_mint_to, token_transfer}
use solana_psm.Processor.Accounts.{PoolAccounts, check_accounts}
use solana_psm.Processor.OwnerFee.{Minting, first, pay_host, pay_pool}
use solana_psm.Processor.Single.{
  rest_of, Sides, side_of, user_a, user_b, with_reserve, owner_fee_in_pool_tokens,
}

-- The accounts of the instruction, in order; the last two may be missing.
pub record DepositAccounts : Type 0 where
  pub swap_info : AccountInfo
  pub authority_info : AccountInfo
  pub user_transfer_authority_info : AccountInfo
  pub source_info : AccountInfo
  pub swap_token_a_info : AccountInfo
  pub swap_token_b_info : AccountInfo
  pub pool_mint_info : AccountInfo
  pub destination_info : AccountInfo
  pub source_token_mint_info : AccountInfo
  pub source_token_program_info : AccountInfo
  pub pool_token_program_info : AccountInfo
  pub pool_fee_account_info : Option AccountInfo
  pub host_fee_account_info : Option AccountInfo

unfoldable pub read_deposit_accounts : List AccountInfo → Action DepositAccounts
read_deposit_accounts accounts = do
  (swap_info, r1) ← next accounts
  (authority_info, r2) ← next r1
  (user_transfer_authority_info, r3) ← next r2
  (source_info, r4) ← next r3
  (swap_token_a_info, r5) ← next r4
  (swap_token_b_info, r6) ← next r5
  (pool_mint_info, r7) ← next r6
  (destination_info, r8) ← next r7
  (source_token_mint_info, r9) ← next r8
  (source_token_program_info, r10) ← next r9
  (pool_token_program_info, r11) ← next r10
  pure (record {
    swap_info = swap_info;
    authority_info = authority_info;
    user_transfer_authority_info = user_transfer_authority_info;
    source_info = source_info;
    swap_token_a_info = swap_token_a_info;
    swap_token_b_info = swap_token_b_info;
    pool_mint_info = pool_mint_info;
    destination_info = destination_info;
    source_token_mint_info = source_token_mint_info;
    source_token_program_info = source_token_program_info;
    pool_token_program_info = pool_token_program_info;
    pool_fee_account_info = first r11;
    host_fee_account_info = first (rest_of r11);
  })

abbrev pub pool_accounts : DepositAccounts → Sides → PoolAccounts
pool_accounts acc side = record {
  swap_account_info = acc.swap_info;
  authority_info = acc.authority_info;
  token_a_info = acc.swap_token_a_info;
  token_b_info = acc.swap_token_b_info;
  pool_mint_info = acc.pool_mint_info;
  pool_token_program_info = acc.pool_token_program_info;
  user_token_a_info = user_a side.direction acc.source_info;
  user_token_b_info = user_b side.direction acc.source_info;
  pool_fee_account_info = acc.pool_fee_account_info;
}

abbrev pub minting : DepositAccounts → Minting
minting acc = record {
  swap = acc.swap_info.key;
  token_program = acc.pool_token_program_info.key;
  pool_mint = acc.pool_mint_info.key;
  authority = acc.authority_info.key;
}

-- The pool mint, what the curve answered, and the pool tokens to mint.
pub record Issue : Type 0 where
  pub pool_mint : Mint
  pub result : SingleTokenTypeResult
  pub pool_token_amount : ℕ

module _ (m : SplMath) (rt : Runtime) where
  -- The pool and its reserves, once the given keys have been checked.
  unfoldable pub check_deposit : Pubkey → DepositAccounts → Action Sides
  check_deposit program_id acc = do
    s ← read (λ w. unpack rt (w acc.swap_info.key).bytes)
    fail_if (not (allows_deposits s.swap_curve.calculator))
        (from_swap_error SwapError.unsupported_curve_operation)
    source_account ←
        read (unpack_token_account rt acc.source_info (some acc.source_token_mint_info.key))
    token_a ← read (unpack_token_account rt acc.swap_token_a_info (some s.token_a_mint))
    token_b ← read (unpack_token_account rt acc.swap_token_b_info (some s.token_b_mint))
    direction ← lift (side_of source_account token_a token_b)
    let side : Sides = record {
      state = s;
      token_a = token_a;
      token_b = token_b;
      direction = direction;
    }
    check_accounts rt s program_id (pool_accounts acc side)
    pure side

  -- The pool tokens that the curve issues, once they are as many as the user wants.
  unfoldable pub issue_deposit :
      (source_token_amount minimum : ℕ) → DepositAccounts → Sides → Action Issue
  issue_deposit source_token_amount minimum acc side = do
    pool_mint ← read (unpack_mint rt acc.pool_mint_info)
    timestamp ← lift (get_current_timestamp_opt rt side.state)
    result ← lift (
        some_or
          (deposit_single_token_type m side.state.swap_curve source_token_amount side.token_a.amount
            side.token_b.amount pool_mint.supply side.direction side.state.fees timestamp)
          SwapError.zero_trading_tokens)
    pool_token_amount ← lift (to_u64 result.amount)
    fail_if (ltb pool_token_amount minimum) (from_swap_error SwapError.exceeded_slippage)
    fail_if (pool_token_amount == 0) (from_swap_error SwapError.zero_trading_tokens)
    pure (record { pool_mint = pool_mint; result = result; pool_token_amount = pool_token_amount })

  -- What is left of the fee goes to the pool's fee account, if one is given.
  abbrev pub pay_pool_if_given :
      DepositAccounts → SwapV1 → ℕ → Option AccountInfo → Action (Unit {0})
  pay_pool_if_given acc s left none = pure tt
  pay_pool_if_given acc s left (some pool_fee_account_info) =
      pay_pool rt (minting acc) s pool_fee_account_info (ltb 0 left) left

  -- The owner's fee, as pool tokens, by the reserves and the supply after the deposit without it.
  unfoldable pub pay_owner : ℕ → DepositAccounts → Sides → Issue → Action (Unit {0})
  pay_owner source_token_amount acc side issue = do
    grown ← lift (
        some_or
          (checked_add (by_direction side.direction side.token_a.amount side.token_b.amount)
            source_token_amount)
          SwapError.fee_calculation_failure)
    reserve ←
        lift (some_or (checked_sub grown issue.result.owner_fee) SwapError.fee_calculation_failure)
    let reserves = with_reserve side.direction reserve side.token_a.amount side.token_b.amount
    supply ← lift (
        some_or (checked_add issue.pool_mint.supply issue.pool_token_amount)
          SwapError.fee_calculation_failure)
    owner_fee_pool ← lift (
        owner_fee_in_pool_tokens m rt side.state side.direction issue.result.owner_fee reserves.0
          reserves.1 supply)
    (if ltb 0 owner_fee_pool
        then (do
          left ← pay_host rt (minting acc) side.state acc.host_fee_account_info owner_fee_pool
          pay_pool_if_given acc side.state left acc.pool_fee_account_info)
        else pure tt)

  -- The owner's fee, the token in, the pool tokens out.
  unfoldable pub settle_deposit : ℕ → DepositAccounts → Sides → Issue → Action (Unit {0})
  settle_deposit source_token_amount acc side issue = do
    (if ltb 0 issue.result.owner_fee then pay_owner source_token_amount acc side issue else pure tt)
    source_mint ← read (unpack_mint rt acc.source_token_mint_info)
    token_transfer rt acc.swap_info.key acc.source_token_program_info.key acc.source_info.key
        acc.source_token_mint_info.key
        (by_direction side.direction acc.swap_token_a_info acc.swap_token_b_info).key
        acc.user_transfer_authority_info.key side.state.bump_seed source_token_amount
        source_mint.decimals
    token_mint_to rt acc.swap_info.key acc.pool_token_program_info.key acc.pool_mint_info.key
        acc.destination_info.key acc.authority_info.key side.state.bump_seed issue.pool_token_amount

  unfoldable pub process_deposit_single_token_type_exact_amount_in :
      Pubkey → (source_token_amount minimum : ℕ) → List AccountInfo → Action (Unit {0})
  process_deposit_single_token_type_exact_amount_in program_id source_token_amount minimum
        accounts =
      do
        acc ← read_deposit_accounts accounts
        side ← check_deposit program_id acc
        issue ← issue_deposit source_token_amount minimum acc side
        settle_deposit source_token_amount acc side issue
