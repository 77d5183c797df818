-- ===== src/Processor/WithdrawAll.antt =====
-- The handler of `WithdrawAllTokenTypes` (program/src/processor.rs).
pub mod Fee
pub mod Checks
pub mod Value
use solana_psm.Common.{
  ℕ, Bool, true, false, not, min, ◌&&◌, ◌||◌, Option, none, some, List, ok, ◌==◌, ltb,
  if◌then◌else◌, checked_sub,
}
use solana_psm.Error.{SwapError, from_swap_error, Res}
use solana_psm.Math.{SplMath}
use solana_psm.Fees.{owner_withdraw_fee}
use solana_psm.Curve.Calculator.{TradingTokenResult, floor}
use solana_psm.Curve.Base.{CurveType, constant_product, pool_tokens_to_trading_tokens}
use solana_psm.Runtime.{Pubkey, Runtime, AccountInfo, TokenAccount, Mint}
use solana_psm.Runtime.Action.{Action, ◌>>=◌, ◌>>◌, pure, lift, read, fail_if, next}
use solana_psm.State.{SwapV1, unpack}
use solana_psm.Processor.Tokens.{
  some_or, to_u64, succeeds, unpack_token_account, unpack_mint, check_pool_fee_info,
}
use solana_psm.Processor.Calls.{token_burn, token_transfer}
use solana_psm.Processor.Accounts.{PoolAccounts, check_accounts}
use solana_psm.Processor.DepositAll.{is_constant_product}

-- The accounts of the instruction, in order.
pub record WithdrawAccounts : Type 0 where
  pub swap_info : AccountInfo
  pub authority_info : AccountInfo
  pub user_transfer_authority_info : AccountInfo
  pub pool_mint_info : AccountInfo
  pub source_info : AccountInfo
  pub token_a_info : AccountInfo
  pub token_b_info : AccountInfo
  pub dest_token_a_info : AccountInfo
  pub dest_token_b_info : AccountInfo
  pub pool_fee_account_info : AccountInfo
  pub token_a_mint_info : AccountInfo
  pub token_b_mint_info : AccountInfo
  pub pool_token_program_info : AccountInfo
  pub token_a_program_info : AccountInfo
  pub token_b_program_info : AccountInfo

unfoldable pub read_withdraw_accounts : List AccountInfo → Action WithdrawAccounts
read_withdraw_accounts accounts = do
  (swap_info, r1) ← next accounts
  (authority_info, r2) ← next r1
  (user_transfer_authority_info, r3) ← next r2
  (pool_mint_info, r4) ← next r3
  (source_info, r5) ← next r4
  (token_a_info, r6) ← next r5
  (token_b_info, r7) ← next r6
  (dest_token_a_info, r8) ← next r7
  (dest_token_b_info, r9) ← next r8
  (pool_fee_account_info, r10) ← next r9
  (token_a_mint_info, r11) ← next r10
  (token_b_mint_info, r12) ← next r11
  (pool_token_program_info, r13) ← next r12
  (token_a_program_info, r14) ← next r13
  (token_b_program_info, r15) ← next r14
  pure (record {
    swap_info = swap_info;
    authority_info = authority_info;
    user_transfer_authority_info = user_transfer_authority_info;
    pool_mint_info = pool_mint_info;
    source_info = source_info;
    token_a_info = token_a_info;
    token_b_info = token_b_info;
    dest_token_a_info = dest_token_a_info;
    dest_token_b_info = dest_token_b_info;
    pool_fee_account_info = pool_fee_account_info;
    token_a_mint_info = token_a_mint_info;
    token_b_mint_info = token_b_mint_info;
    pool_token_program_info = pool_token_program_info;
    token_a_program_info = token_a_program_info;
    token_b_program_info = token_b_program_info;
  })

abbrev pub pool_accounts : WithdrawAccounts → PoolAccounts
pool_accounts acc = record {
  swap_account_info = acc.swap_info;
  authority_info = acc.authority_info;
  token_a_info = acc.token_a_info;
  token_b_info = acc.token_b_info;
  pool_mint_info = acc.pool_mint_info;
  pool_token_program_info = acc.pool_token_program_info;
  user_token_a_info = some acc.dest_token_a_info;
  user_token_b_info = some acc.dest_token_b_info;
  pool_fee_account_info = some acc.pool_fee_account_info;
}

-- What the withdrawal goes by: the reserves, the pool mint and the fee in pool tokens.
pub record Reading : Type 0 where
  pub token_a : TokenAccount
  pub token_b : TokenAccount
  pub pool_mint : Mint
  pub withdraw_fee : ℕ
  pub pool_token_amount : ℕ
  pub results : TradingTokenResult

-- The amounts of trading tokens that the withdrawal moves.
pub record WithdrawQuote : Type 0 where
  pub token_a_amount : ℕ
  pub token_b_amount : ℕ

module _ (rt : Runtime) where
  -- The fee for pool tokens, unless the fee account is no good or is itself the source.
  unfoldable pub withdraw_fee_of : SwapV1 → (fee_account source : AccountInfo) → ℕ → Action ℕ
  withdraw_fee_of s pool_fee_account_info source_info pool_tokens = do
    is_ok ← read (λ w. succeeds (check_pool_fee_info rt s pool_fee_account_info w))
    (if is_ok && not (pool_fee_account_info.key == source_info.key)
        then lift
            (some_or (owner_withdraw_fee s.fees pool_tokens) SwapError.fee_calculation_failure)
        else pure 0)

module _ (m : SplMath) (rt : Runtime) where
  -- The pool, once its account and the given keys have been checked.
  unfoldable pub check_withdraw : Pubkey → WithdrawAccounts → Action SwapV1
  check_withdraw program_id acc = do
    s ← read (λ w. unpack rt (w acc.swap_info.key).bytes)
    check_accounts rt s program_id (pool_accounts acc)
    pure s

  -- What the curve gives for the pool tokens without the fee.
  unfoldable pub worth_of_withdraw : ℕ → WithdrawAccounts → SwapV1 → Action Reading
  worth_of_withdraw pool_tokens acc s = do
    token_a ← read (unpack_token_account rt acc.token_a_info (some acc.token_a_mint_info.key))
    token_b ← read (unpack_token_account rt acc.token_b_info (some acc.token_b_mint_info.key))
    pool_mint ← read (unpack_mint rt acc.pool_mint_info)
    withdraw_fee ← withdraw_fee_of rt s acc.pool_fee_account_info acc.source_info pool_tokens
    pool_token_amount ←
        lift (some_or (checked_sub pool_tokens withdraw_fee) SwapError.calculation_failure)
    results ← lift (
        some_or
          (pool_tokens_to_trading_tokens m s.swap_curve.calculator pool_token_amount
            pool_mint.supply token_a.amount token_b.amount floor)
          SwapError.zero_trading_tokens)
    pure (record {
      token_a = token_a;
      token_b = token_b;
      pool_mint = pool_mint;
      withdraw_fee = withdraw_fee;
      pool_token_amount = pool_token_amount;
      results = results;
    })

  -- The amounts, within the reserves, once they are as much as the user wants.
  unfoldable pub quote_withdraw :
      (minimum_a minimum_b : ℕ) → SwapV1 → Reading → Action WithdrawQuote
  quote_withdraw minimum_a minimum_b s r = do
    result_a ← lift (to_u64 r.results.token_a_amount)
    let token_a_amount = min r.token_a.amount result_a
    fail_if (ltb token_a_amount minimum_a) (from_swap_error SwapError.exceeded_slippage)
    result_b ← lift (to_u64 r.results.token_b_amount)
    let token_b_amount = min r.token_b.amount result_b
    fail_if (ltb token_b_amount minimum_b) (from_swap_error SwapError.exceeded_slippage)
    fail_if (is_constant_product s && (token_a_amount == 0 && not (r.token_a.amount == 0)))
        (from_swap_error SwapError.zero_trading_tokens)
    fail_if (is_constant_product s && (token_b_amount == 0 && not (r.token_b.amount == 0)))
        (from_swap_error SwapError.zero_trading_tokens)
    pure (record { token_a_amount = token_a_amount; token_b_amount = token_b_amount })

  -- A trading token out of the pool, if there is any.
  unfoldable pub pay_out :
      WithdrawAccounts
      → SwapV1
      → (program reserve mint destination : AccountInfo) → ℕ
      → Action (Unit {0})
  pay_out acc s program reserve mint destination amount =
      if ltb 0 amount
      then (do
        token_mint ← read (unpack_mint rt mint)
        token_transfer rt acc.swap_info.key program.key reserve.key mint.key destination.key
            acc.authority_info.key s.bump_seed amount token_mint.decimals)
      else pure tt

  -- The fee to its account, the pool tokens burnt, the two tokens out.
  unfoldable pub settle_withdraw :
      WithdrawAccounts → SwapV1 → Reading → WithdrawQuote → Action (Unit {0})
  settle_withdraw acc s r q = do
    (if ltb 0 r.withdraw_fee
        then (do
          fee ← lift (to_u64 r.withdraw_fee)
          token_transfer rt acc.swap_info.key acc.pool_token_program_info.key acc.source_info.key
              acc.pool_mint_info.key acc.pool_fee_account_info.key
              acc.user_transfer_authority_info.key s.bump_seed fee r.pool_mint.decimals)
        else pure tt)
    burnt ← lift (to_u64 r.pool_token_amount)
    token_burn rt acc.swap_info.key acc.pool_token_program_info.key acc.source_info.key
        acc.pool_mint_info.key acc.user_transfer_authority_info.key s.bump_seed burnt
    pay_out acc s acc.token_a_program_info acc.token_a_info acc.token_a_mint_info
        acc.dest_token_a_info q.token_a_amount
    pay_out acc s acc.token_b_program_info acc.token_b_info acc.token_b_mint_info
        acc.dest_token_b_info q.token_b_amount

  unfoldable pub process_withdraw_all_token_types :
      Pubkey → (pool_tokens minimum_a minimum_b : ℕ) → List AccountInfo → Action (Unit {0})
  process_withdraw_all_token_types program_id pool_tokens minimum_a minimum_b accounts = do
    acc ← read_withdraw_accounts accounts
    s ← check_withdraw program_id acc
    r ← worth_of_withdraw pool_tokens acc s
    q ← quote_withdraw minimum_a minimum_b s r
    settle_withdraw acc s r q
