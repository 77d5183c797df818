-- ===== src/Processor/DepositAll.antt =====
-- The handler of `DepositAllTokenTypes` (program/src/processor.rs).
pub mod Checks
pub mod Value
use solana_psm.Common.{
  ℕ, Bool, true, false, not, ◌&&◌, ◌||◌, Option, none, some, List, ◌==◌, ltb, if◌then◌else◌,
}
use solana_psm.Error.{SwapError, from_swap_error}
use solana_psm.Math.{SplMath}
use solana_psm.Curve.Calculator.{TradingTokenResult, ceiling}
use solana_psm.Curve.Base.{
  CurveType, constant_product, pool_tokens_to_trading_tokens, allows_deposits, as_u8,
}
use solana_psm.Runtime.{Pubkey, Runtime, AccountInfo}
use solana_psm.Runtime.Action.{Action, ◌>>=◌, ◌>>◌, pure, lift, read, fail_if, next}
use solana_psm.State.{SwapV1, unpack}
use solana_psm.Processor.Tokens.{some_or, to_u64, unpack_token_account, unpack_mint}
use solana_psm.Processor.Calls.{token_mint_to, token_transfer}
use solana_psm.Processor.Accounts.{PoolAccounts, check_accounts}

-- The accounts of the instruction, in order.
pub record DepositAccounts : Type 0 where
  pub swap_info : AccountInfo
  pub authority_info : AccountInfo
  pub user_transfer_authority_info : AccountInfo
  pub source_a_info : AccountInfo
  pub source_b_info : AccountInfo
  pub token_a_info : AccountInfo
  pub token_b_info : AccountInfo
  pub pool_mint_info : AccountInfo
  pub dest_info : AccountInfo
  pub token_a_mint_info : AccountInfo
  pub token_b_mint_info : AccountInfo
  pub token_a_program_info : AccountInfo
  pub token_b_program_info : AccountInfo
  pub pool_token_program_info : AccountInfo

unfoldable pub read_deposit_accounts : List AccountInfo → Action DepositAccounts
read_deposit_accounts accounts = do
  (swap_info, r1) ← next accounts
  (authority_info, r2) ← next r1
  (user_transfer_authority_info, r3) ← next r2
  (source_a_info, r4) ← next r3
  (source_b_info, r5) ← next r4
  (token_a_info, r6) ← next r5
  (token_b_info, r7) ← next r6
  (pool_mint_info, r8) ← next r7
  (dest_info, r9) ← next r8
  (token_a_mint_info, r10) ← next r9
  (token_b_mint_info, r11) ← next r10
  (token_a_program_info, r12) ← next r11
  (token_b_program_info, r13) ← next r12
  (pool_token_program_info, r14) ← next r13
  pure (record {
    swap_info = swap_info;
    authority_info = authority_info;
    user_transfer_authority_info = user_transfer_authority_info;
    source_a_info = source_a_info;
    source_b_info = source_b_info;
    token_a_info = token_a_info;
    token_b_info = token_b_info;
    pool_mint_info = pool_mint_info;
    dest_info = dest_info;
    token_a_mint_info = token_a_mint_info;
    token_b_mint_info = token_b_mint_info;
    token_a_program_info = token_a_program_info;
    token_b_program_info = token_b_program_info;
    pool_token_program_info = pool_token_program_info;
  })

abbrev pub pool_accounts : DepositAccounts → PoolAccounts
pool_accounts acc = record {
  swap_account_info = acc.swap_info;
  authority_info = acc.authority_info;
  token_a_info = acc.token_a_info;
  token_b_info = acc.token_b_info;
  pool_mint_info = acc.pool_mint_info;
  pool_token_program_info = acc.pool_token_program_info;
  user_token_a_info = some acc.source_a_info;
  user_token_b_info = some acc.source_b_info;
  pool_fee_account_info = none;
}

-- `curve_type == CurveType::ConstantProduct`
abbrev pub is_constant_product : SwapV1 → Bool
is_constant_product s = as_u8 s.swap_curve.curve_type == as_u8 constant_product

-- The amounts that the deposit moves.
pub record DepositQuote : Type 0 where
  pub token_a_amount : ℕ
  pub token_b_amount : ℕ
  pub pool_token_amount : ℕ

module _ (m : SplMath) (rt : Runtime) where
  -- The pool, once its account and the given keys have been checked.
  unfoldable pub check_deposit : Pubkey → DepositAccounts → Action SwapV1
  check_deposit program_id acc = do
    s ← read (λ w. unpack rt (w acc.swap_info.key).bytes)
    fail_if (not (allows_deposits s.swap_curve.calculator))
        (from_swap_error SwapError.unsupported_curve_operation)
    check_accounts rt s program_id (pool_accounts acc)
    pure s

  -- What the curve asks for the pool tokens.
  unfoldable pub price_of_deposit : ℕ → DepositAccounts → SwapV1 → Action TradingTokenResult
  price_of_deposit pool_token_amount acc s = do
    token_a ← read (unpack_token_account rt acc.token_a_info (some acc.token_a_mint_info.key))
    token_b ← read (unpack_token_account rt acc.token_b_info (some acc.token_b_mint_info.key))
    pool_mint ← read (unpack_mint rt acc.pool_mint_info)
    lift (
        some_or
          (pool_tokens_to_trading_tokens m s.swap_curve.calculator pool_token_amount
            pool_mint.supply token_a.amount token_b.amount ceiling)
          SwapError.zero_trading_tokens)

  -- The amounts, once they are within what the user allows.
  unfoldable pub quote_deposit :
      (pool_tokens maximum_a maximum_b : ℕ) → SwapV1 → TradingTokenResult → Action DepositQuote
  quote_deposit pool_tokens maximum_a maximum_b s results = do
    token_a_amount ← lift (to_u64 results.token_a_amount)
    fail_if (ltb maximum_a token_a_amount) (from_swap_error SwapError.exceeded_slippage)
    token_b_amount ← lift (to_u64 results.token_b_amount)
    fail_if (ltb maximum_b token_b_amount) (from_swap_error SwapError.exceeded_slippage)
    fail_if (is_constant_product s && (token_a_amount == 0 || token_b_amount == 0))
        (from_swap_error SwapError.zero_trading_tokens)
    pool_token_amount ← lift (to_u64 pool_tokens)
    pure (record {
      token_a_amount = token_a_amount;
      token_b_amount = token_b_amount;
      pool_token_amount = pool_token_amount;
    })

  -- The two tokens in, the pool tokens out.
  unfoldable pub settle_deposit : DepositAccounts → SwapV1 → DepositQuote → Action (Unit {0})
  settle_deposit acc s q = do
    token_a_mint ← read (unpack_mint rt acc.token_a_mint_info)
    token_transfer rt acc.swap_info.key acc.token_a_program_info.key acc.source_a_info.key
        acc.token_a_mint_info.key acc.token_a_info.key acc.user_transfer_authority_info.key
        s.bump_seed q.token_a_amount token_a_mint.decimals
    token_b_mint ← read (unpack_mint rt acc.token_b_mint_info)
    token_transfer rt acc.swap_info.key acc.token_b_program_info.key acc.source_b_info.key
        acc.token_b_mint_info.key acc.token_b_info.key acc.user_transfer_authority_info.key
        s.bump_seed q.token_b_amount token_b_mint.decimals
    token_mint_to rt acc.swap_info.key acc.pool_token_program_info.key acc.pool_mint_info.key
        acc.dest_info.key acc.authority_info.key s.bump_seed q.pool_token_amount

  unfoldable pub process_deposit_all_token_types :
      Pubkey → (pool_tokens maximum_a maximum_b : ℕ) → List AccountInfo → Action (Unit {0})
  process_deposit_all_token_types program_id pool_tokens maximum_a maximum_b accounts = do
    acc ← read_deposit_accounts accounts
    s ← check_deposit program_id acc
    results ← price_of_deposit pool_tokens acc s
    q ← quote_deposit pool_tokens maximum_a maximum_b s results
    settle_deposit acc s q
