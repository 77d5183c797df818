-- ===== src/Tests/Clients.antt =====
-- The builders of instructions at concrete keys.
use solana_psm.Common.{some}
use solana_psm.Instruction as Data
use solana_psm.Instruction.Builders
use solana_psm.Instruction.Builders.Delivery.{
  for_swap, for_deposit_all, for_withdraw_all, for_deposit_single, for_withdraw_single,
  builders-Delivers,
}
use solana_psm.Instruction.Builders.Keys.{Delivers, Keys}
use solana_psm.Instruction.Builders.Opening.{for_initialize}
use solana_psm.Processor.InitializeChecks.{read_initialize_accounts}
use solana_psm.Curve.Charging.Overcharge.{tenth_fees}
use solana_psm.Tests.Packing.{test_swap}
use solana_psm.Processor.Swap.{read_swap_accounts}
use solana_psm.Processor.DepositAll as DepositAll
use solana_psm.Processor.WithdrawAll as WithdrawAll
use solana_psm.Processor.DepositSingle as DepositSingle
use solana_psm.Processor.WithdrawSingle as WithdrawSingle
use solana_psm.Tests.Swaps.{token_world}

abbrev test_keys : Keys
test_keys = record {
  program_id = 9;
  token_a_program = 10;
  token_b_program = 11;
  pool_token_program = 12;
  swap = 13;
  authority = 14;
  user_transfer_authority = 15;
  user_a = 16;
  user_b = 17;
  user_pool = 18;
  reserve_a = 19;
  reserve_b = 20;
  pool_mint = 21;
  fee_account = 22;
  mint_a = 23;
  mint_b = 24;
}

abbrev test_offer : Data.Swap
test_offer = record { amount_in = 100; minimum_amount_out = 45 }

abbrev test_deposit : Data.DepositAllTokenTypes
test_deposit = record {
  pool_token_amount = 10;
  maximum_token_a_amount = 30;
  maximum_token_b_amount = 15;
}

abbrev test_withdrawal : Data.WithdrawAllTokenTypes
test_withdrawal = record {
  pool_token_amount = 10;
  minimum_token_a_amount = 3;
  minimum_token_b_amount = 1;
}

abbrev test_deposit_single : Data.DepositSingleTokenTypeExactAmountIn
test_deposit_single = record { source_token_amount = 100; minimum_pool_token_amount = 7 }

abbrev test_withdraw_single : Data.WithdrawSingleTokenTypeExactAmountOut
test_withdraw_single = record { destination_token_amount = 100; maximum_pool_token_amount = 90 }

abbrev test_extra : Builders.RedemptionRateExtraAccounts
test_extra = record { permission_account = 31; authority = 32; payer = 33; system_program = 0 }

builders-Delivers_example :
    Delivers
      (Builders.initialize test_keys.program_id test_keys.pool_token_program test_keys.swap
        test_keys.authority test_keys.reserve_a test_keys.reserve_b test_keys.pool_mint
        test_keys.mint_a test_keys.mint_b test_keys.fee_account test_keys.user_pool tenth_fees
        test_swap.swap_curve
        (some test_extra))
      test_keys.program_id
      (Data.initialize (record { fees = tenth_fees; swap_curve = test_swap.swap_curve }))
      read_initialize_accounts
      (for_initialize test_keys test_extra test_swap.swap_curve)
      token_world
    × Delivers
        (Builders.swap test_keys.program_id test_keys.token_a_program test_keys.token_b_program
          test_keys.pool_token_program test_keys.swap test_keys.authority
          test_keys.user_transfer_authority test_keys.user_a test_keys.reserve_a test_keys.reserve_b
          test_keys.user_b test_keys.pool_mint test_keys.fee_account test_keys.mint_a
          test_keys.mint_b
          (some 60)
          test_offer)
        test_keys.program_id
        (Data.swap test_offer)
        read_swap_accounts
        (for_swap test_keys (some 60))
        token_world
    × Delivers
        (Builders.deposit_all_token_types test_keys.program_id test_keys.token_a_program
          test_keys.token_b_program test_keys.pool_token_program test_keys.swap test_keys.authority
          test_keys.user_transfer_authority test_keys.user_a test_keys.user_b test_keys.reserve_a
          test_keys.reserve_b test_keys.pool_mint test_keys.user_pool test_keys.mint_a
          test_keys.mint_b test_deposit)
        test_keys.program_id
        (Data.deposit_all_token_types test_deposit)
        DepositAll.read_deposit_accounts
        (for_deposit_all test_keys)
        token_world
    × Delivers
        (Builders.withdraw_all_token_types test_keys.program_id test_keys.pool_token_program
          test_keys.token_a_program test_keys.token_b_program test_keys.swap test_keys.authority
          test_keys.user_transfer_authority test_keys.pool_mint test_keys.fee_account
          test_keys.user_pool test_keys.reserve_a test_keys.reserve_b test_keys.user_a
          test_keys.user_b test_keys.mint_a test_keys.mint_b test_withdrawal)
        test_keys.program_id
        (Data.withdraw_all_token_types test_withdrawal)
        WithdrawAll.read_withdraw_accounts
        (for_withdraw_all test_keys)
        token_world
    × Delivers
        (Builders.deposit_single_token_type_exact_amount_in test_keys.program_id
          test_keys.token_a_program test_keys.pool_token_program test_keys.swap test_keys.authority
          test_keys.user_transfer_authority test_keys.user_a test_keys.reserve_a test_keys.reserve_b
          test_keys.pool_mint test_keys.user_pool test_keys.mint_a test_deposit_single)
        test_keys.program_id
        (Data.deposit_single_token_type_exact_amount_in test_deposit_single)
        DepositSingle.read_deposit_accounts
        (for_deposit_single test_keys)
        token_world
    × Delivers
        (Builders.withdraw_single_token_type_exact_amount_out test_keys.program_id
          test_keys.pool_token_program test_keys.token_a_program test_keys.swap test_keys.authority
          test_keys.user_transfer_authority test_keys.pool_mint test_keys.fee_account
          test_keys.user_pool test_keys.reserve_a test_keys.reserve_b test_keys.user_a
          test_keys.mint_a test_withdraw_single)
        test_keys.program_id
        (Data.withdraw_single_token_type_exact_amount_out test_withdraw_single)
        WithdrawSingle.read_withdraw_accounts
        (for_withdraw_single test_keys)
        token_world
builders-Delivers_example =
    builders-Delivers test_keys (some 60) token_world tenth_fees test_swap.swap_curve test_extra
      test_offer test_deposit test_withdrawal test_deposit_single test_withdraw_single
