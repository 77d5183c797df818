-- ===== src/Tests/Swaps.antt =====
-- A run of the handler of `Swap`.
use solana_psm.Common.{
  ◌-◌, ◌*◌, ◌≤◌, ◌<◌, ℕ, ◌+◌, ◌≡◌, refl, ok, err, List, [], ◌∷◌, ◌++◌, true, none, some, ◌==◌,
  if◌then◌else◌, checked_add, checked_sub, checked_mul, checked_div,
}
use solana_psm.Common.Bytes.{to_le_bytes, from_le_bytes, split_at, take, drop}
use solana_psm.Error.{ProgramError, Res}
use solana_psm.Fees
use solana_psm.Fees.{calculate_fee, trading_fee, owner_trading_fee, host_fee}
use solana_psm.Curve.Calculator.{map_zero_to_none, b_to_a}
use solana_psm.Curve.Priced.{ray, swap_at_price, swap_amounts, trading_tokens_to_pool_tokens}
use solana_psm.Curve.ConstantPrice
use solana_psm.Curve.Base.{as_u8, try_from, swap_without_fees, deposit_without_fees}
use solana_psm.Curve.Encoding.{calculator_bytes, unpack_calculator}
use solana_psm.Curve.Encoding
use solana_psm.Curve.Charging.{swap, charge, recharge, SwapResult}
use solana_psm.Curve.Charging.Overcharge.{two_for_one}
use solana_psm.Runtime.{Runtime, World, AccountInfo, TokenAccount, MintState, initialized}
use solana_psm.State.{SwapV1, head_bytes, read_bool}
use solana_psm.State
use solana_psm.Processor.Tokens.{
  map_err, some_or, succeeds, to_u64, unpack_token_account, unpack_mint,
  unpack_mint_with_extensions, authority_id, check_pool_fee_info, get_current_timestamp_opt,
  timestamp_of,
}
use solana_psm.Processor.Calls.{token_mint_to, token_transfer}
use solana_psm.Processor.OwnerFee.{pay_host, pay_pool}
use solana_psm.Processor.Swap.{
  SwapAccounts, Quote, read_swap_accounts, check_swap_keys, check_swap, exchange, quote_of,
  reserves_less_fee, pay_owner, settle_swap, process_swap,
}
use solana_psm.Processor.Swap.Checks.{Pool, Exchange, IsQuote, process_swap-Exchange}
use solana_psm.Instruction.{zeros}
use solana_psm.Processor.Swap.Value.{process_swap-value}
use solana_psm.Curve.Charging.Fair.{value_of, fixed}
use solana_psm.Tests.Machine.{exact_math, exact_math-IsSplMath, test_runtime}
use solana_psm.Tests.Packing.{test_swap}
use solana_psm.Tests.Handlers.{swap_bytes}

abbrev pub priced_swap : SwapV1
priced_swap = record test_swap { swap_curve = two_for_one }

-- A token account is its mint and its amount.
abbrev read_account : List ℕ → Res TokenAccount
read_account (mint ∷ amount ∷ _) = ok (record {
  mint = mint;
  owner = 40;
  amount = amount;
  delegate = none;
  state = initialized;
  close_authority = none;
})
read_account [] = err ProgramError.invalid_account_data
read_account (mint ∷ []) = err ProgramError.invalid_account_data

abbrev pub a_mint : MintState
a_mint = record {
  base = record { mint_authority = none; supply = 1000; decimals = 6; freeze_authority = none };
  extension_types = ok [];
}

abbrev pub token_runtime : Runtime
token_runtime = record test_runtime {
  unpack_account = read_account;
  unpack_mint = λ bytes. ok a_mint;
  create_program_address = λ seeds program. some 40;
}

-- Account 1 is the pool; the mint of another account has its number and three.
abbrev pub token_world : World
token_world k =
    if k == 1
    then record { owner = 9; lamports = 1; bytes = swap_bytes priced_swap ++ zeros 48 }
    else record { owner = 21; lamports = 1; bytes = (k + 3) ∷ 1000 ∷ [] }

abbrev pub at : ℕ → AccountInfo
at k = record { key = k; is_signer = true }

abbrev pub given_accounts : List AccountInfo
given_accounts =
    at 1
    ∷ at 40
    ∷ at 41
    ∷ at 42
    ∷ at 23
    ∷ at 22
    ∷ at 43
    ∷ at 24
    ∷ at 27
    ∷ at 26
    ∷ at 25
    ∷ at 50
    ∷ at 51
    ∷ at 21
    ∷ []

abbrev swap_accounts : SwapAccounts
swap_accounts = record {
  swap_info = at 1;
  authority_info = at 40;
  user_transfer_authority_info = at 41;
  source_info = at 42;
  swap_source_info = at 23;
  swap_destination_info = at 22;
  destination_info = at 43;
  pool_mint_info = at 24;
  pool_fee_account_info = at 27;
  source_token_mint_info = at 26;
  destination_token_mint_info = at 25;
  source_token_program_info = at 50;
  destination_token_program_info = at 51;
  pool_token_program_info = at 21;
  rest = [];
}

accounts_read : read_swap_accounts given_accounts token_world ≡ ok (swap_accounts, token_world)
unfolding read_swap_accounts
accounts_read = refl

pub swap_runs :
    process_swap exact_math token_runtime 9 100 150 given_accounts token_world
    ≡ ok (tt, token_world)
unfolding process_swap read_swap_accounts check_swap exchange quote_of settle_swap pay_owner
    pay_host pay_pool timestamp_of reserves_less_fee check_swap_keys token_transfer token_mint_to
    check_pool_fee_info get_current_timestamp_opt unpack_token_account unpack_mint
    unpack_mint_with_extensions authority_id map_err some_or succeeds to_u64 swap charge recharge
    trading_fee owner_trading_fee calculate_fee swap_without_fees deposit_without_fees
    ConstantPrice.swap_without_fees ConstantPrice.deposit_single_token_type
    trading_tokens_to_pool_tokens swap_at_price swap_amounts map_zero_to_none checked_add
    checked_sub checked_mul checked_div State.unpack State.unpack_from_slice read_bool head_bytes
    Fees.to_bytes Fees.unpack_from_slice Encoding.unpack_from_slice calculator_bytes
    unpack_calculator as_u8 try_from to_le_bytes from_le_bytes split_at zeros take drop
swap_runs = refl

process_swap-Exchange_example :
    (s : SwapV1) × (result : SwapResult) × (q : Quote) × Pool token_runtime 9 swap_accounts
      token_world s
    × Exchange exact_math token_runtime 100 swap_accounts token_world s result
    × IsQuote 150 s result q
    × (settle_swap exact_math token_runtime swap_accounts q token_world ≡ ok (tt, token_world))
process_swap-Exchange_example =
    process_swap-Exchange exact_math token_runtime 9 100 150 given_accounts token_world token_world
      swap_accounts accounts_read swap_runs

abbrev pub thousand_of : ℕ → TokenAccount
thousand_of mint = record {
  mint = mint;
  owner = 40;
  amount = 1000;
  delegate = none;
  state = initialized;
  close_authority = none;
}

pub pool_stored : State.unpack token_runtime (token_world 1).bytes ≡ ok priced_swap
unfolding State.unpack State.unpack_from_slice read_bool head_bytes Fees.to_bytes
    Fees.unpack_from_slice Encoding.unpack_from_slice calculator_bytes unpack_calculator as_u8
    try_from to_le_bytes from_le_bytes split_at zeros take drop
pool_stored = refl

source_read : unpack_token_account token_runtime (at 23) (some 26) token_world ≡ ok (thousand_of 26)
unfolding unpack_token_account map_err
source_read = refl

destination_read :
    unpack_token_account token_runtime (at 22) (some 25) token_world ≡ ok (thousand_of 25)
unfolding unpack_token_account map_err
destination_read = refl

pub no_clock : get_current_timestamp_opt token_runtime priced_swap ≡ ok none
unfolding get_current_timestamp_opt timestamp_of
no_clock = refl

process_swap-value_example :
    (q : Quote) × (150 ≤ q.destination_amount)
    × (q.destination_amount ≤ 1000)
    × (q.result.trade_fee + q.result.owner_fee < q.source_amount)
    × (value_of (2 * ray) b_to_a (1000 + (q.result.trade_fee + q.result.owner_fee)) 1000
        ≤ value_of (2 * ray) b_to_a (1000 + q.source_amount) (1000 - q.destination_amount))
    × (settle_swap exact_math token_runtime swap_accounts q token_world ≡ ok (tt, token_world))
process_swap-value_example =
    process_swap-value exact_math exact_math-IsSplMath token_runtime 9 100 150 (2 * ray)
      given_accounts token_world token_world swap_accounts priced_swap (thousand_of 26)
      (thousand_of 25) none accounts_read pool_stored source_read destination_read no_clock
      (fixed (record { token_b_price = 2 * ray }) none) swap_runs
