-- ===== src/Tests/Both.antt =====
-- Runs of the handlers that deposit and withdraw both tokens.
use solana_psm.Common.{
  ◌+◌, ◌*◌, ◌≤◌, ◌≡◌, refl, inr, ok, List, [], ◌∷◌, some, checked_sub, checked_mul, checked_div,
  arith,
}
use solana_psm.Common.Bytes.{to_le_bytes, from_le_bytes, split_at, take, drop}
use solana_psm.Fees
use solana_psm.Fees.{calculate_fee, owner_withdraw_fee}
use solana_psm.Curve.Base.{as_u8, try_from, allows_deposits, pool_tokens_to_trading_tokens}
use solana_psm.Curve.Priced
use solana_psm.Curve.Encoding.{calculator_bytes, unpack_calculator}
use solana_psm.Curve.Encoding
use solana_psm.Curve.Shares.{reckoned_b}
use solana_psm.Curve.Calculator.{TradingTokenResult}
use solana_psm.State
use solana_psm.State.{SwapV1, head_bytes, read_bool}
use solana_psm.Processor.Tokens.{
  map_err, some_or, succeeds, to_u64, unpack_token_account, unpack_mint,
  unpack_mint_with_extensions, authority_id, check_pool_fee_info,
}
use solana_psm.Processor.Calls.{token_mint_to, token_transfer, token_burn}
use solana_psm.Processor.Accounts.{check_accounts}
use solana_psm.Processor.DepositAll.{
  DepositAccounts, DepositQuote, read_deposit_accounts, check_deposit, price_of_deposit,
  quote_deposit, settle_deposit, process_deposit_all_token_types,
}
use solana_psm.Processor.DepositAll.Checks as DepositChecks
use solana_psm.Processor.DepositAll.Checks.{process_deposit_all_token_types-Price}
use solana_psm.Processor.DepositAll.Value.{process_deposit_all_token_types-ge-share}
use solana_psm.Processor.WithdrawAll.{
  WithdrawAccounts, Reading, WithdrawQuote, read_withdraw_accounts, withdraw_fee_of, check_withdraw,
  worth_of_withdraw, quote_withdraw, pay_out, settle_withdraw, process_withdraw_all_token_types,
}
use solana_psm.Processor.WithdrawAll.Checks as WithdrawChecks
use solana_psm.Processor.WithdrawAll.Checks.{process_withdraw_all_token_types-Worth}
use solana_psm.Processor.WithdrawAll.Value.{process_withdraw_all_token_types-le-share}
use solana_psm.Instruction.{zeros}
use solana_psm.Tests.Machine.{exact_math, exact_math-IsSplMath}
use solana_psm.Runtime.{AccountInfo}
use solana_psm.Tests.Swaps.{
  priced_swap, token_runtime, token_world, at, thousand_of, a_mint, pool_stored,
}

abbrev deposit_list : List AccountInfo
deposit_list =
    at 1
    ∷ at 40
    ∷ at 41
    ∷ at 42
    ∷ at 43
    ∷ at 22
    ∷ at 23
    ∷ at 24
    ∷ at 44
    ∷ at 25
    ∷ at 26
    ∷ at 50
    ∷ at 51
    ∷ at 21
    ∷ []

abbrev deposit_accounts : DepositAccounts
deposit_accounts = record {
  swap_info = at 1;
  authority_info = at 40;
  user_transfer_authority_info = at 41;
  source_a_info = at 42;
  source_b_info = at 43;
  token_a_info = at 22;
  token_b_info = at 23;
  pool_mint_info = at 24;
  dest_info = at 44;
  token_a_mint_info = at 25;
  token_b_mint_info = at 26;
  token_a_program_info = at 50;
  token_b_program_info = at 51;
  pool_token_program_info = at 21;
}

deposit_read : read_deposit_accounts deposit_list token_world ≡ ok (deposit_accounts, token_world)
unfolding read_deposit_accounts
deposit_read = refl

deposit_runs :
    process_deposit_all_token_types exact_math token_runtime 9 10 10 20 deposit_list token_world
    ≡ ok (tt, token_world)
unfolding process_deposit_all_token_types read_deposit_accounts check_deposit price_of_deposit
    quote_deposit settle_deposit check_accounts allows_deposits pool_tokens_to_trading_tokens
    Priced.pool_tokens_to_trading_tokens token_transfer token_mint_to unpack_token_account
    unpack_mint unpack_mint_with_extensions authority_id map_err some_or to_u64 State.unpack
    State.unpack_from_slice read_bool head_bytes Fees.to_bytes Fees.unpack_from_slice
    Encoding.unpack_from_slice calculator_bytes unpack_calculator as_u8 try_from to_le_bytes
    from_le_bytes split_at zeros take drop
deposit_runs = refl

process_deposit_all_token_types-Price_example :
    (s : SwapV1) × (results : TradingTokenResult) × (q : DepositQuote) × DepositChecks.Pool
      token_runtime 9 deposit_accounts token_world s
    × DepositChecks.Price exact_math token_runtime 10 deposit_accounts token_world s results
    × DepositChecks.IsQuote 10 10 20 s results q
    × (settle_deposit exact_math token_runtime deposit_accounts s q token_world
        ≡ ok (tt, token_world))
process_deposit_all_token_types-Price_example =
    process_deposit_all_token_types-Price exact_math token_runtime 9 10 10 20 deposit_list
      token_world token_world deposit_accounts deposit_read deposit_runs

a_read : unpack_token_account token_runtime (at 22) (some 25) token_world ≡ ok (thousand_of 25)
unfolding unpack_token_account map_err
a_read = refl

b_read : unpack_token_account token_runtime (at 23) (some 26) token_world ≡ ok (thousand_of 26)
unfolding unpack_token_account map_err
b_read = refl

mint_read : unpack_mint token_runtime (at 24) token_world ≡ ok (a_mint.base)
unfolding unpack_mint unpack_mint_with_extensions map_err
mint_read = refl

process_deposit_all_token_types-ge-share_example :
    (q : DepositQuote) × (q.pool_token_amount ≡ 10)
    × (q.token_a_amount ≤ 10)
    × (q.token_b_amount ≤ 20)
    × (10 * 1000 ≤ q.token_a_amount * 1000)
    × (10 * 1000 ≤ q.token_b_amount * 1000)
    × (settle_deposit exact_math token_runtime deposit_accounts priced_swap q token_world
        ≡ ok (tt, token_world))
process_deposit_all_token_types-ge-share_example =
    process_deposit_all_token_types-ge-share exact_math token_runtime exact_math-IsSplMath 9 10 10
      20 deposit_list token_world token_world deposit_accounts priced_swap (thousand_of 25)
      (thousand_of 26) a_mint.base deposit_read pool_stored a_read b_read mint_read
      (inr (omega arith, omega arith)) deposit_runs

abbrev withdraw_list : List AccountInfo
withdraw_list =
    at 1
    ∷ at 40
    ∷ at 41
    ∷ at 24
    ∷ at 42
    ∷ at 22
    ∷ at 23
    ∷ at 43
    ∷ at 44
    ∷ at 27
    ∷ at 25
    ∷ at 26
    ∷ at 21
    ∷ at 50
    ∷ at 51
    ∷ []

abbrev withdraw_accounts : WithdrawAccounts
withdraw_accounts = record {
  swap_info = at 1;
  authority_info = at 40;
  user_transfer_authority_info = at 41;
  pool_mint_info = at 24;
  source_info = at 42;
  token_a_info = at 22;
  token_b_info = at 23;
  dest_token_a_info = at 43;
  dest_token_b_info = at 44;
  pool_fee_account_info = at 27;
  token_a_mint_info = at 25;
  token_b_mint_info = at 26;
  pool_token_program_info = at 21;
  token_a_program_info = at 50;
  token_b_program_info = at 51;
}

withdraw_read :
    read_withdraw_accounts withdraw_list token_world ≡ ok (withdraw_accounts, token_world)
unfolding read_withdraw_accounts
withdraw_read = refl

withdraw_runs :
    process_withdraw_all_token_types exact_math token_runtime 9 10 5 6 withdraw_list token_world
    ≡ ok (tt, token_world)
unfolding process_withdraw_all_token_types read_withdraw_accounts check_withdraw worth_of_withdraw
    withdraw_fee_of quote_withdraw pay_out settle_withdraw check_accounts owner_withdraw_fee
    calculate_fee pool_tokens_to_trading_tokens Priced.pool_tokens_to_trading_tokens token_transfer
    token_burn check_pool_fee_info succeeds unpack_token_account unpack_mint
    unpack_mint_with_extensions authority_id map_err some_or to_u64 checked_sub checked_mul
    checked_div State.unpack State.unpack_from_slice read_bool head_bytes Fees.to_bytes
    Fees.unpack_from_slice Encoding.unpack_from_slice calculator_bytes unpack_calculator as_u8
    try_from to_le_bytes from_le_bytes split_at zeros take drop
withdraw_runs = refl

process_withdraw_all_token_types-Worth_example :
    (s : SwapV1) × (r : Reading) × (q : WithdrawQuote) × WithdrawChecks.Pool token_runtime 9
      withdraw_accounts token_world s
    × WithdrawChecks.Worth exact_math token_runtime 10 withdraw_accounts token_world s r
    × WithdrawChecks.IsQuote 5 6 s r q
    × (settle_withdraw exact_math token_runtime withdraw_accounts s r q token_world
        ≡ ok (tt, token_world))
process_withdraw_all_token_types-Worth_example =
    process_withdraw_all_token_types-Worth exact_math token_runtime 9 10 5 6 withdraw_list
      token_world token_world withdraw_accounts withdraw_read withdraw_runs

process_withdraw_all_token_types-le-share_example :
    (r : Reading) × (q : WithdrawQuote) × (r.pool_token_amount + r.withdraw_fee ≡ 10)
    × (5 ≤ q.token_a_amount)
    × (6 ≤ q.token_b_amount)
    × (q.token_a_amount ≤ 1000)
    × (q.token_b_amount ≤ 1000)
    × (q.token_a_amount * 1000 ≤ r.pool_token_amount * 1000)
    × (q.token_b_amount * 1000
        ≤ r.pool_token_amount * reckoned_b priced_swap.swap_curve.calculator 1000)
    × (settle_withdraw exact_math token_runtime withdraw_accounts priced_swap r q token_world
        ≡ ok (tt, token_world))
process_withdraw_all_token_types-le-share_example =
    process_withdraw_all_token_types-le-share exact_math token_runtime exact_math-IsSplMath 9 10 5 6
      withdraw_list token_world token_world withdraw_accounts priced_swap (thousand_of 25)
      (thousand_of 26) a_mint.base withdraw_read pool_stored a_read b_read mint_read withdraw_runs
