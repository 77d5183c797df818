-- ===== src/Tests/Single.antt =====
-- Runs of the handlers that deposit and withdraw one token.
use solana_psm.Common.{
  ◌+◌, ◌*◌, ◌≤◌, ◌<◌, ◌≡◌, refl, ok, List, [], ◌∷◌, some, none, ◌==◌, if◌then◌else◌, checked_add,
  checked_sub, checked_mul, checked_div, arith,
}
use solana_psm.Common.Bytes.{to_le_bytes, from_le_bytes, split_at, take, drop}
use solana_psm.Fees
use solana_psm.Fees.{
  calculate_fee, owner_withdraw_fee, trading_fee, owner_trading_fee, host_fee,
  pre_trading_fee_amount, pre_fee_amount, ceil_div,
}
use solana_psm.Curve.Calculator.{a_to_b}
use solana_psm.Curve.Base.{
  as_u8, try_from, allows_deposits, deposit_without_fees, withdraw_without_fees,
}
use solana_psm.Curve.Charging.{
  charge, deposit_single_token_type, withdraw_single_token_type_exact_out,
}
use solana_psm.Curve.Charging.Fair.{fixed}
use solana_psm.Curve.Priced.{ray, trading_tokens_to_pool_tokens}
use solana_psm.Curve.ConstantPrice
use solana_psm.Curve.Encoding.{calculator_bytes, unpack_calculator}
use solana_psm.Curve.Encoding
use solana_psm.Runtime.{World, AccountInfo}
use solana_psm.State
use solana_psm.State.{SwapV1, head_bytes, read_bool}
use solana_psm.Processor.Tokens.{
  map_err, some_or, succeeds, to_u64, unpack_token_account, unpack_mint,
  unpack_mint_with_extensions, authority_id, check_pool_fee_info, get_current_timestamp_opt,
  timestamp_of,
}
use solana_psm.Processor.Calls.{token_mint_to, token_transfer, token_burn}
use solana_psm.Processor.Accounts.{check_accounts}
use solana_psm.Processor.OwnerFee.{pay_host, pay_pool}
use solana_psm.Processor.Single.{Sides, side_of, owner_fee_in_pool_tokens}
use solana_psm.Processor.DepositSingle as DepositSingle
use solana_psm.Processor.DepositSingle.{
  DepositAccounts, Issue, read_deposit_accounts, check_deposit, issue_deposit, settle_deposit,
  process_deposit_single_token_type_exact_amount_in,
}
use solana_psm.Processor.DepositSingle.Checks as DepositChecks
use solana_psm.Processor.DepositSingle.Value.{process_deposit_single-le-share}
use solana_psm.Processor.WithdrawAll.{withdraw_fee_of}
use solana_psm.Processor.WithdrawSingle as WithdrawSingle
use solana_psm.Processor.WithdrawSingle.{
  WithdrawAccounts, Cost, read_withdraw_accounts, check_withdraw, cost_of_withdraw,
  pay_owner_if_due, check_cost, settle_withdraw,
  process_withdraw_single_token_type_exact_amount_out,
}
use solana_psm.Processor.WithdrawSingle.Checks as WithdrawChecks
use solana_psm.Processor.WithdrawSingle.Checks.{process_withdraw_single-Cost}
use solana_psm.Processor.WithdrawSingle.Value.{process_withdraw_single-ge-share}
use solana_psm.Instruction.{zeros}
use solana_psm.Curve.Charging.Single.{Deposited, Withdrawn}
use solana_psm.Tests.Machine.{exact_math, exact_math-IsSplMath}
use solana_psm.Tests.Swaps.{
  priced_swap, token_runtime, token_world, at, thousand_of, a_mint, pool_stored, no_clock,
}

-- Account 60 is the user's, with token A.
abbrev user_world : World
user_world k =
    if k == 60 then record { owner = 21; lamports = 1; bytes = 25 ∷ 1000 ∷ [] } else token_world k

stored_pool : State.unpack token_runtime (user_world 1).bytes ≡ ok priced_swap
stored_pool = pool_stored

abbrev deposit_list : List AccountInfo
deposit_list =
    at 1
    ∷ at 40
    ∷ at 41
    ∷ at 60
    ∷ at 22
    ∷ at 23
    ∷ at 24
    ∷ at 44
    ∷ at 25
    ∷ at 50
    ∷ at 21
    ∷ at 27
    ∷ []

abbrev deposit_accounts : DepositAccounts
deposit_accounts = record {
  swap_info = at 1;
  authority_info = at 40;
  user_transfer_authority_info = at 41;
  source_info = at 60;
  swap_token_a_info = at 22;
  swap_token_b_info = at 23;
  pool_mint_info = at 24;
  destination_info = at 44;
  source_token_mint_info = at 25;
  source_token_program_info = at 50;
  pool_token_program_info = at 21;
  pool_fee_account_info = some (at 27);
  host_fee_account_info = none;
}

deposit_read : read_deposit_accounts deposit_list user_world ≡ ok (deposit_accounts, user_world)
unfolding read_deposit_accounts
deposit_read = refl

deposit_runs :
    process_deposit_single_token_type_exact_amount_in exact_math token_runtime 9 100 20 deposit_list
      user_world
    ≡ ok (tt, user_world)
unfolding process_deposit_single_token_type_exact_amount_in read_deposit_accounts check_deposit
    issue_deposit settle_deposit DepositSingle.pay_owner owner_fee_in_pool_tokens side_of pay_host
    pay_pool check_accounts allows_deposits deposit_single_token_type charge trading_fee
    owner_trading_fee calculate_fee deposit_without_fees ConstantPrice.deposit_single_token_type
    trading_tokens_to_pool_tokens token_transfer token_mint_to check_pool_fee_info succeeds
    unpack_token_account unpack_mint unpack_mint_with_extensions authority_id map_err some_or to_u64
    get_current_timestamp_opt timestamp_of checked_add checked_sub checked_mul checked_div
    State.unpack State.unpack_from_slice read_bool head_bytes Fees.to_bytes Fees.unpack_from_slice
    Encoding.unpack_from_slice calculator_bytes unpack_calculator as_u8 try_from to_le_bytes
    from_le_bytes split_at zeros take drop
deposit_runs = refl

mint_read : unpack_mint token_runtime (at 24) user_world ≡ ok a_mint.base
unfolding unpack_mint unpack_mint_with_extensions map_err
mint_read = refl

process_deposit_single-le-share_example :
    (side : Sides) × (issue : Issue) × (side.state ≡ priced_swap)
    × DepositChecks.Pool token_runtime 9 deposit_accounts user_world side
    × (20 ≤ issue.pool_token_amount)
    × (0 < issue.pool_token_amount)
    × (issue.pool_token_amount ≡ issue.result.amount)
    × Deposited priced_swap.fees 100 side.token_a.amount side.token_b.amount 1000
        (2 * ray)
        side.direction
        issue.result
    × (settle_deposit exact_math token_runtime 100 deposit_accounts side issue user_world
        ≡ ok (tt, user_world))
process_deposit_single-le-share_example =
    process_deposit_single-le-share exact_math token_runtime exact_math-IsSplMath 9 100 20 (2 * ray)
      deposit_list user_world user_world deposit_accounts priced_swap a_mint.base none deposit_read
      stored_pool mint_read no_clock (fixed (record { token_b_price = 2 * ray }) none) deposit_runs

abbrev withdraw_list : List AccountInfo
withdraw_list =
    at 1
    ∷ at 40
    ∷ at 41
    ∷ at 24
    ∷ at 42
    ∷ at 22
    ∷ at 23
    ∷ at 60
    ∷ at 27
    ∷ at 25
    ∷ at 21
    ∷ at 50
    ∷ []

abbrev withdraw_accounts : WithdrawAccounts
withdraw_accounts = record {
  swap_info = at 1;
  authority_info = at 40;
  user_transfer_authority_info = at 41;
  pool_mint_info = at 24;
  source_info = at 42;
  swap_token_a_info = at 22;
  swap_token_b_info = at 23;
  destination_info = at 60;
  pool_fee_account_info = at 27;
  destination_token_mint_info = at 25;
  pool_token_program_info = at 21;
  destination_token_program_info = at 50;
  host_fee_account_info = none;
}

withdraw_read : read_withdraw_accounts withdraw_list user_world ≡ ok (withdraw_accounts, user_world)
unfolding read_withdraw_accounts
withdraw_read = refl

withdraw_runs :
    process_withdraw_single_token_type_exact_amount_out exact_math token_runtime 9 100 90
      withdraw_list user_world
    ≡ ok (tt, user_world)
unfolding process_withdraw_single_token_type_exact_amount_out read_withdraw_accounts check_withdraw
    cost_of_withdraw WithdrawSingle.pay_owner pay_owner_if_due check_cost settle_withdraw
    withdraw_fee_of owner_withdraw_fee owner_fee_in_pool_tokens side_of pay_host pay_pool
    check_accounts withdraw_single_token_type_exact_out pre_trading_fee_amount pre_fee_amount
    ceil_div owner_trading_fee calculate_fee deposit_without_fees withdraw_without_fees
    ConstantPrice.deposit_single_token_type ConstantPrice.withdraw_single_token_type_exact_out
    trading_tokens_to_pool_tokens token_transfer token_mint_to token_burn check_pool_fee_info
    succeeds unpack_token_account unpack_mint unpack_mint_with_extensions authority_id map_err
    some_or to_u64 get_current_timestamp_opt timestamp_of checked_add checked_sub checked_mul
    checked_div State.unpack State.unpack_from_slice read_bool head_bytes Fees.to_bytes
    Fees.unpack_from_slice Encoding.unpack_from_slice calculator_bytes unpack_calculator as_u8
    try_from to_le_bytes from_le_bytes split_at zeros take drop
withdraw_runs = refl

process_withdraw_single-Cost_example :
    (side : Sides) × (cost : Cost) × (paid : World) × WithdrawChecks.Pool token_runtime 9
      withdraw_accounts user_world side
    × WithdrawChecks.IsCost exact_math token_runtime 100 withdraw_accounts user_world side cost
    × WithdrawChecks.IsAllowed 90 cost
    × (pay_owner_if_due exact_math token_runtime 100 withdraw_accounts side cost user_world
        ≡ ok (tt, paid))
    × (settle_withdraw exact_math token_runtime 100 withdraw_accounts side cost paid
        ≡ ok (tt, user_world))
process_withdraw_single-Cost_example =
    process_withdraw_single-Cost exact_math token_runtime 9 100 90 withdraw_list user_world
      user_world withdraw_accounts withdraw_read withdraw_runs

abbrev side_a : Sides
side_a = record {
  state = priced_swap;
  token_a = thousand_of 25;
  token_b = thousand_of 26;
  direction = a_to_b;
}

user_read : unpack_token_account token_runtime (at 60) (some 25) user_world ≡ ok (thousand_of 25)
unfolding unpack_token_account map_err
user_read = refl

a_read : unpack_token_account token_runtime (at 22) (some 25) user_world ≡ ok (thousand_of 25)
unfolding unpack_token_account map_err
a_read = refl

b_read : unpack_token_account token_runtime (at 23) (some 26) user_world ≡ ok (thousand_of 26)
unfolding unpack_token_account map_err
b_read = refl

sided : side_of (thousand_of 25) (thousand_of 25) (thousand_of 26) ≡ ok a_to_b
unfolding side_of
sided = refl

process_withdraw_single-ge-share_example :
    (cost : Cost) × (paid : World) × (cost.result.amount + cost.withdraw_fee ≤ 90)
    × (0 < cost.result.amount + cost.withdraw_fee)
    × Withdrawn priced_swap.fees 100 1000 1000 1000 (2 * ray) a_to_b cost.result
    × (pay_owner_if_due exact_math token_runtime 100 withdraw_accounts side_a cost user_world
        ≡ ok (tt, paid))
    × (settle_withdraw exact_math token_runtime 100 withdraw_accounts side_a cost paid
        ≡ ok (tt, user_world))
process_withdraw_single-ge-share_example =
    process_withdraw_single-ge-share exact_math token_runtime exact_math-IsSplMath 9 100 90
      (2 * ray) withdraw_list user_world user_world withdraw_accounts side_a (thousand_of 25)
      a_mint.base none withdraw_read stored_pool user_read a_read b_read sided mint_read no_clock
      (fixed (record { token_b_price = 2 * ray }) none) (omega arith) (omega arith) withdraw_runs
