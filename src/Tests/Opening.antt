-- ===== src/Tests/Opening.antt =====
-- Runs of the handler that makes a pool, of the dispatch and of a trade.
use solana_psm.Common.{
  ℕ, ◌⊎◌, ◌+◌, ◌≡◌, refl, ap, ◌∙◌, ok, err, List, [], ◌∷◌, ◌++◌, true, Option, some, none, ◌==◌,
  if◌then◌else◌, arith,
}
use solana_psm.Common.Bytes.{to_le_bytes, from_le_bytes, split_at, take, drop, write_front}
use solana_psm.Error.{ProgramError, SwapError, Res, from_swap_error}
use solana_psm.Fees
use solana_psm.Fees.{IsFees, validate_fraction}
use solana_psm.Curve.Calculator.{validate_supply_a}
use solana_psm.Curve.Base
use solana_psm.Curve.Base.{as_u8, validate_supply, new_pool_supply}
use solana_psm.Curve.ConstantPrice
use solana_psm.Curve.Encoding.{calculator_bytes}
use solana_psm.Curve.Encoding
use solana_psm.Curve.Charging.Overcharge.{two_for_one}
use solana_psm.Constraints.{
  SwapConstraints, ExtensionTypes, production_fees, swap_constraints, validate_curve, contains_type,
  validate_fees, validate_mint_extensions, all_in,
}
use solana_psm.Runtime.{
  Runtime, IsRuntime, World, AccountInfo, TokenAccount, MintState, initialized,
}
use solana_psm.Runtime.Action.{with_data}
use solana_psm.Runtime.Isolation.{IsIsolated}
use solana_psm.State
use solana_psm.State.{SwapV1, head_bytes, is_initialized, pack_into_slice}
use solana_psm.State.RoundTrip.{IsSwap}
use solana_psm.Processor.Tokens.{
  map_err, to_u64, unpack_token_account, unpack_mint_with_extensions, timestamp_of,
}
use solana_psm.Processor.Calls.{token_mint_to}
use solana_psm.Processor.InitializeChecks.{
  InitializeAccounts, Found, read_initialize_accounts, find_accounts, checked_mint, check_owners,
  check_tokens, check_terms, check_constraints, parse_owner_key, check_initialize,
}
use solana_psm.Processor.InitializeChecks.Terms.{Passed}
use solana_psm.Processor.Initialize.{
  mint_initial, grant_if_redemption_rate, store_swap, process_initialize,
}
use solana_psm.Processor.Initialize.Created.{
  Made, process_initialize-Passed, unpack-process_initialize, process_initialize-again,
}
use solana_psm.Instruction
use solana_psm.Instruction.{zeros}
use solana_psm.Processor.Dispatch.{handle, process}
use solana_psm.Processor.Swap.{process_swap}
use solana_psm.Processor.Initialize.Production.{IsProductionFees, process_initialize-Production}
use solana_psm.Processor.Dispatch.Wire.{swaps, process-Wire}
use solana_psm.Processor.Dispatch.Trading.{trade, done, swapping, Trades-unpack}
use solana_psm.Tests.Machine.{exact_math}
use solana_psm.Tests.Handlers.{swap_bytes}
use solana_psm.Tests.Swaps.{
  priced_swap, token_runtime, token_world, at, a_mint, given_accounts, pool_stored, swap_runs,
}

-- A token account is its mint, its amount and its owner.
abbrev read_owned : List ℕ → Res TokenAccount
read_owned (mint ∷ amount ∷ owner ∷ _) = ok (record {
  mint = mint;
  owner = owner;
  amount = amount;
  delegate = none;
  state = initialized;
  close_authority = none;
})
read_owned [] = err ProgramError.invalid_account_data
read_owned (_ ∷ []) = err ProgramError.invalid_account_data
read_owned (_ ∷ _ ∷ []) = err ProgramError.invalid_account_data

-- The authority is 40, and the owner of the first pool tokens 41.
abbrev address_of : List (List ℕ) → ℕ × ℕ
address_of (_ ∷ []) = (40, 254)
address_of (_ ∷ _ ∷ _) = (41, 255)
address_of [] = (0, 0)

abbrev new_mint : MintState
new_mint = record a_mint { base = record a_mint.base { mint_authority = some 40; supply = 0 } }

abbrev opening_runtime : Runtime
opening_runtime = record token_runtime {
  unpack_account = read_owned;
  unpack_mint = λ bytes. ok new_mint;
  find_program_address = λ seeds program. address_of seeds;
}

opening_runtime-IsRuntime : IsRuntime opening_runtime
opening_runtime-IsRuntime = record {
  check_len_lem = λ required given. refl;
  check_initialized_lem = λ b. refl;
}

token_runtime-IsRuntime : IsRuntime token_runtime
token_runtime-IsRuntime = record {
  check_len_lem = λ required given. refl;
  check_initialized_lem = λ b. refl;
}

-- Account 1 is to be the pool, 27 takes its fees, and 44 the first pool tokens.
abbrev opening_world : World
opening_world k =
    if k == 1
    then record { owner = 9; lamports = 1; bytes = zeros 356 }
    else if k == 27
    then record { owner = 21; lamports = 1; bytes = 24 ∷ 0 ∷ 45 ∷ [] }
    else if k == 44
    then record { owner = 21; lamports = 1; bytes = 24 ∷ 0 ∷ 41 ∷ [] }
    else record { owner = 21; lamports = 1; bytes = (k + 3) ∷ 1000 ∷ 40 ∷ [] }

abbrev opening_list : List AccountInfo
opening_list = at 1 ∷ at 40 ∷ at 22 ∷ at 23 ∷ at 24 ∷ at 25 ∷ at 26 ∷ at 27 ∷ at 44 ∷ at 21 ∷ []

abbrev opening_accounts : InitializeAccounts
opening_accounts = record {
  swap_info = at 1;
  authority_info = at 40;
  token_a_info = at 22;
  token_b_info = at 23;
  pool_mint_info = at 24;
  token_a_mint_info = at 25;
  token_b_mint_info = at 26;
  fee_account_info = at 27;
  destination_info = at 44;
  pool_token_program_info = at 21;
  rest = [];
}

abbrev test_types : ExtensionTypes
test_types = record {
  confidential_transfer_mint = 4;
  metadata_pointer = 18;
  token_metadata = 19;
  mint_close_authority = 3;
}

abbrev opened : SwapV1
opened = record priced_swap { fees = production_fees }

abbrev opened_world : World
opened_world = with_data opening_world 1 (swap_bytes opened ++ zeros 48)

abbrev test_constraints : Option SwapConstraints
test_constraints = some (record {
  owner_key = some (some 45);
  valid_curve_types = Base.constant_price ∷ [];
  fees = production_fees;
})

opening_read : (w : World) → read_initialize_accounts opening_list w ≡ ok (opening_accounts, w)
unfolding read_initialize_accounts
opening_read w = refl

opening_runs :
    process_initialize exact_math opening_runtime test_types 9 production_fees two_for_one
      opening_list test_constraints opening_world
    ≡ ok (tt, opened_world)
unfolding process_initialize read_initialize_accounts check_initialize find_accounts checked_mint
    check_owners check_tokens check_terms check_constraints parse_owner_key mint_initial
    grant_if_redemption_rate store_swap validate_curve contains_type validate_fees
    validate_mint_extensions all_in Fees.validate validate_fraction timestamp_of Base.validate
    ConstantPrice.validate validate_supply validate_supply_a new_pool_supply is_initialized
    token_mint_to to_u64 unpack_token_account unpack_mint_with_extensions map_err State.pack
    pack_into_slice Encoding.pack_into_slice write_front head_bytes Fees.to_bytes calculator_bytes
    as_u8 to_le_bytes from_le_bytes split_at zeros take drop
opening_runs = refl

process_initialize-Passed_example :
    (found : Found) × Passed exact_math opening_runtime test_types 9 production_fees two_for_one
      test_constraints opening_accounts opening_world found
    × Made opening_runtime 9 production_fees two_for_one opening_accounts found opening_world
        opened_world
process_initialize-Passed_example =
    process_initialize-Passed exact_math opening_runtime test_types 9 production_fees two_for_one
      opening_list test_constraints opening_world opened_world opening_accounts
      (opening_read opening_world) opening_runs

abbrev holding : ℕ → ℕ → ℕ → TokenAccount
holding mint amount owner = record {
  mint = mint;
  owner = owner;
  amount = amount;
  delegate = none;
  state = initialized;
  close_authority = none;
}

abbrev found_accounts : Found
found_accounts = record {
  bump_seed = 254;
  token_a = holding 25 1000 40;
  token_b = holding 26 1000 40;
  fee_account = holding 24 0 45;
  destination = holding 24 0 41;
  pool_mint = new_mint.base;
  token_a_mint = new_mint;
  token_b_mint = new_mint;
}

opening_finds :
    find_accounts opening_runtime test_types 9 opening_accounts opening_world
    ≡ ok (found_accounts, opening_world)
unfolding find_accounts checked_mint is_initialized validate_mint_extensions all_in
    unpack_token_account unpack_mint_with_extensions map_err zeros
opening_finds = refl

opened-IsSwap : IsSwap opened
opened-IsSwap = record {
  bump = omega arith;
  program = omega arith;
  a = omega arith;
  b = omega arith;
  mint = omega arith;
  a_mint = omega arith;
  b_mint = omega arith;
  fee_account = omega arith;
  fees_range = record {
    trade_numerator = omega arith;
    trade_denominator = omega arith;
    owner_trade_numerator = omega arith;
    owner_trade_denominator = omega arith;
    owner_withdraw_numerator = omega arith;
    owner_withdraw_denominator = omega arith;
    host_numerator = omega arith;
    host_denominator = omega arith;
  };
  calculator_range = omega arith;
  curve_matches = refl;
}

unpack-process_initialize_example : State.unpack opening_runtime (opened_world 1).bytes ≡ ok opened
unpack-process_initialize_example =
    unpack-process_initialize exact_math opening_runtime test_types opening_runtime-IsRuntime 9
      production_fees two_for_one opening_list test_constraints opening_world opened_world
      opening_accounts found_accounts (opening_read opening_world) opening_finds opened-IsSwap
      opening_runs

process_initialize-again_example :
    process_initialize exact_math opening_runtime test_types 9 production_fees two_for_one
      opening_list none opened_world
    ≡ err (from_swap_error SwapError.already_in_use)
process_initialize-again_example =
    process_initialize-again exact_math opening_runtime test_types opening_runtime-IsRuntime 9
      production_fees production_fees two_for_one two_for_one opening_list opening_list
      test_constraints none opening_world opened_world opening_accounts opening_accounts
      (opening_read opening_world) opening_runs (opening_read opened_world) refl

abbrev offer : Instruction.SwapInstruction
offer = Instruction.swap (record { amount_in = 100; minimum_amount_out = 150 })

process-Wire_example :
    process exact_math token_runtime test_types true
      (some 45)
      9
      given_accounts
      (1 ∷ (to_le_bytes 8 100 ++ to_le_bytes 8 150))
      token_world
    ≡ process_swap exact_math token_runtime 9 100 150 given_accounts token_world
process-Wire_example =
    process-Wire exact_math token_runtime test_types true (some 45) 9 given_accounts
      token_runtime-IsRuntime token_world (swaps 100 150 (omega arith) (omega arith))

offer_runs :
    handle exact_math token_runtime test_types 9 given_accounts none offer token_world
    ≡ ok (tt, token_world)
unfolding handle
offer_runs = swap_runs

token_runtime-IsIsolated : IsIsolated token_runtime 9
token_runtime-IsIsolated ix keys seeds w w' h k own =
    let e : w' ≡ w = cc (h) in (ap (λ v. (v k).owner) e ∙ own, ap (λ v. (v k).bytes) e)

Trades-unpack_example :
    ((token_world 1).owner ≡ 9)
    × (State.unpack token_runtime (token_world 1).bytes ≡ ok priced_swap)
Trades-unpack_example =
    Trades-unpack exact_math token_runtime test_types 9 none token_runtime-IsIsolated token_world
      token_world 1 priced_swap refl pool_stored
      (trade token_world token_world token_world offer given_accounts
        (swapping (record { amount_in = 100; minimum_amount_out = 150 })) offer_runs
        (done token_world))

production_runs :
    process_initialize exact_math opening_runtime test_types 9 production_fees two_for_one
      opening_list
      (swap_constraints true (some 45))
      opening_world
    ≡ ok (tt, opened_world)
unfolding process_initialize read_initialize_accounts check_initialize find_accounts checked_mint
    check_owners check_tokens check_terms check_constraints parse_owner_key mint_initial
    grant_if_redemption_rate store_swap swap_constraints validate_curve contains_type validate_fees
    validate_mint_extensions all_in Fees.validate validate_fraction timestamp_of Base.validate
    ConstantPrice.validate validate_supply validate_supply_a new_pool_supply is_initialized
    token_mint_to to_u64 unpack_token_account unpack_mint_with_extensions map_err State.pack
    pack_into_slice Encoding.pack_into_slice write_front head_bytes Fees.to_bytes calculator_bytes
    as_u8 to_le_bytes from_le_bytes split_at zeros take drop
production_runs = refl

process_initialize-Production_example :
    (fee_account : TokenAccount) × (unpack_token_account opening_runtime
        (at 27)
        (some 24)
        opening_world
      ≡ ok fee_account)
    × (fee_account.owner ≡ 45)
    × ((two_for_one.curve_type ≡ Base.constant_price)
        ⊎ (two_for_one.curve_type ≡ Base.redemption_rate_curve))
    × IsProductionFees production_fees
process_initialize-Production_example =
    process_initialize-Production exact_math opening_runtime test_types 9 45 production_fees
      two_for_one opening_list opening_world opened_world opening_accounts
      (opening_read opening_world) production_runs
