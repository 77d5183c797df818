-- ===== src/Instruction/Builders/Delivery.antt =====
-- The accounts that a builder lists are the ones that the handler reads (program/src/instruction.rs,
-- program/src/processor.rs).
use solana_psm.Common.{refl, Option, none, some}
use solana_psm.Runtime.{Pubkey, World}
use solana_psm.Instruction as Data
use solana_psm.Instruction.{pack}
use solana_psm.Instruction.Builders
use solana_psm.Processor.Swap.{SwapAccounts, read_swap_accounts}
use solana_psm.Processor.DepositAll as DepositAll
use solana_psm.Processor.WithdrawAll as WithdrawAll
use solana_psm.Processor.DepositSingle as DepositSingle
use solana_psm.Processor.WithdrawSingle as WithdrawSingle
use solana_psm.Instruction.Builders.Keys.{infos, Delivers, Keys, info, signer, hosts}
use solana_psm.Instruction.Builders.Opening.{for_initialize, initialize-Delivers}
use solana_psm.Fees.{Fees}
use solana_psm.Curve.Base.{SwapCurve}
use solana_psm.Processor.InitializeChecks.{read_initialize_accounts}

-- The accounts of each handler.
abbrev pub for_swap : Keys → Option Pubkey → SwapAccounts
for_swap k host = record {
  swap_info = info k.swap;
  authority_info = info k.authority;
  user_transfer_authority_info = signer k.user_transfer_authority;
  source_info = info k.user_a;
  swap_source_info = info k.reserve_a;
  swap_destination_info = info k.reserve_b;
  destination_info = info k.user_b;
  pool_mint_info = info k.pool_mint;
  pool_fee_account_info = info k.fee_account;
  source_token_mint_info = info k.mint_a;
  destination_token_mint_info = info k.mint_b;
  source_token_program_info = info k.token_a_program;
  destination_token_program_info = info k.token_b_program;
  pool_token_program_info = info k.pool_token_program;
  rest = hosts host;
}

abbrev pub for_deposit_all : Keys → DepositAll.DepositAccounts
for_deposit_all k = record {
  swap_info = info k.swap;
  authority_info = info k.authority;
  user_transfer_authority_info = signer k.user_transfer_authority;
  source_a_info = info k.user_a;
  source_b_info = info k.user_b;
  token_a_info = info k.reserve_a;
  token_b_info = info k.reserve_b;
  pool_mint_info = info k.pool_mint;
  dest_info = info k.user_pool;
  token_a_mint_info = info k.mint_a;
  token_b_mint_info = info k.mint_b;
  token_a_program_info = info k.token_a_program;
  token_b_program_info = info k.token_b_program;
  pool_token_program_info = info k.pool_token_program;
}

abbrev pub for_withdraw_all : Keys → WithdrawAll.WithdrawAccounts
for_withdraw_all k = record {
  swap_info = info k.swap;
  authority_info = info k.authority;
  user_transfer_authority_info = signer k.user_transfer_authority;
  pool_mint_info = info k.pool_mint;
  source_info = info k.user_pool;
  token_a_info = info k.reserve_a;
  token_b_info = info k.reserve_b;
  dest_token_a_info = info k.user_a;
  dest_token_b_info = info k.user_b;
  pool_fee_account_info = info k.fee_account;
  token_a_mint_info = info k.mint_a;
  token_b_mint_info = info k.mint_b;
  pool_token_program_info = info k.pool_token_program;
  token_a_program_info = info k.token_a_program;
  token_b_program_info = info k.token_b_program;
}

abbrev pub for_deposit_single : Keys → DepositSingle.DepositAccounts
for_deposit_single k = record {
  swap_info = info k.swap;
  authority_info = info k.authority;
  user_transfer_authority_info = signer k.user_transfer_authority;
  source_info = info k.user_a;
  swap_token_a_info = info k.reserve_a;
  swap_token_b_info = info k.reserve_b;
  pool_mint_info = info k.pool_mint;
  destination_info = info k.user_pool;
  source_token_mint_info = info k.mint_a;
  source_token_program_info = info k.token_a_program;
  pool_token_program_info = info k.pool_token_program;
  pool_fee_account_info = none;
  host_fee_account_info = none;
}

abbrev pub for_withdraw_single : Keys → WithdrawSingle.WithdrawAccounts
for_withdraw_single k = record {
  swap_info = info k.swap;
  authority_info = info k.authority;
  user_transfer_authority_info = signer k.user_transfer_authority;
  pool_mint_info = info k.pool_mint;
  source_info = info k.user_pool;
  swap_token_a_info = info k.reserve_a;
  swap_token_b_info = info k.reserve_b;
  destination_info = info k.user_a;
  pool_fee_account_info = info k.fee_account;
  destination_token_mint_info = info k.mint_a;
  pool_token_program_info = info k.pool_token_program;
  destination_token_program_info = info k.token_a_program;
  host_fee_account_info = none;
}

swap-Delivers :
    (k : Keys) (host : Option Pubkey) (i : Data.Swap) (w : World)
    → Delivers
        (Builders.swap k.program_id k.token_a_program k.token_b_program k.pool_token_program k.swap
          k.authority k.user_transfer_authority k.user_a k.reserve_a k.reserve_b k.user_b
          k.pool_mint k.fee_account k.mint_a k.mint_b host i)
        k.program_id
        (Data.swap i)
        read_swap_accounts
        (for_swap k host)
        w
unfolding Builders.swap pack infos read_swap_accounts
swap-Delivers k none i w = (_, refl, refl, refl, refl)
swap-Delivers k (some key) i w = (_, refl, refl, refl, refl)

-- Each of the builders for a new pool, given the extra accounts, for a swap of A for B, a deposit and
-- a withdrawal of both tokens, and of token A alone builds an instruction of the program that carries
-- the packed data, and from whose accounts the handler reads every key as what the builder was given
-- it for. A new pool is itself a signer, and the extra accounts, with the payer as a signer, follow
-- for the redemption rate curve only; elsewhere the user's transfer authority alone is a signer. The
-- swap also has the host's account where one is given, while the fee account is in no single deposit.
pub builders-Delivers :
    (k : Keys) (host : Option Pubkey) (w : World) (fees : Fees) (swap_curve : SwapCurve)
    (extra : Builders.RedemptionRateExtraAccounts) (i1 : Data.Swap) (i2 : Data.DepositAllTokenTypes)
    (i3 : Data.WithdrawAllTokenTypes) (i4 : Data.DepositSingleTokenTypeExactAmountIn)
    (i5 : Data.WithdrawSingleTokenTypeExactAmountOut)
    → Delivers
        (Builders.initialize k.program_id k.pool_token_program k.swap k.authority k.reserve_a
          k.reserve_b k.pool_mint k.mint_a k.mint_b k.fee_account k.user_pool fees swap_curve
          (some extra))
        k.program_id
        (Data.initialize (record { fees = fees; swap_curve = swap_curve }))
        read_initialize_accounts
        (for_initialize k extra swap_curve)
        w
      × Delivers
          (Builders.swap k.program_id k.token_a_program k.token_b_program k.pool_token_program
            k.swap k.authority k.user_transfer_authority k.user_a k.reserve_a k.reserve_b k.user_b
            k.pool_mint k.fee_account k.mint_a k.mint_b host i1)
          k.program_id
          (Data.swap i1)
          read_swap_accounts
          (for_swap k host)
          w
      × Delivers
          (Builders.deposit_all_token_types k.program_id k.token_a_program k.token_b_program
            k.pool_token_program k.swap k.authority k.user_transfer_authority k.user_a k.user_b
            k.reserve_a k.reserve_b k.pool_mint k.user_pool k.mint_a k.mint_b i2)
          k.program_id
          (Data.deposit_all_token_types i2)
          DepositAll.read_deposit_accounts
          (for_deposit_all k)
          w
      × Delivers
          (Builders.withdraw_all_token_types k.program_id k.pool_token_program k.token_a_program
            k.token_b_program k.swap k.authority k.user_transfer_authority k.pool_mint k.fee_account
            k.user_pool k.reserve_a k.reserve_b k.user_a k.user_b k.mint_a k.mint_b i3)
          k.program_id
          (Data.withdraw_all_token_types i3)
          WithdrawAll.read_withdraw_accounts
          (for_withdraw_all k)
          w
      × Delivers
          (Builders.deposit_single_token_type_exact_amount_in k.program_id k.token_a_program
            k.pool_token_program k.swap k.authority k.user_transfer_authority k.user_a k.reserve_a
            k.reserve_b k.pool_mint k.user_pool k.mint_a i4)
          k.program_id
          (Data.deposit_single_token_type_exact_amount_in i4)
          DepositSingle.read_deposit_accounts
          (for_deposit_single k)
          w
      × Delivers
          (Builders.withdraw_single_token_type_exact_amount_out k.program_id k.pool_token_program
            k.token_a_program k.swap k.authority k.user_transfer_authority k.pool_mint k.fee_account
            k.user_pool k.reserve_a k.reserve_b k.user_a k.mint_a i5)
          k.program_id
          (Data.withdraw_single_token_type_exact_amount_out i5)
          WithdrawSingle.read_withdraw_accounts
          (for_withdraw_single k)
          w
unfolding Builders.deposit_all_token_types Builders.withdraw_all_token_types
    Builders.deposit_single_token_type_exact_amount_in
    Builders.withdraw_single_token_type_exact_amount_out pack infos DepositAll.read_deposit_accounts
    WithdrawAll.read_withdraw_accounts DepositSingle.read_deposit_accounts
    WithdrawSingle.read_withdraw_accounts
builders-Delivers k host w fees swap_curve extra i1 i2 i3 i4 i5 = (
  initialize-Delivers k fees swap_curve extra w,
  swap-Delivers k host i1 w,
  (_, refl, refl, refl, refl),
  (_, refl, refl, refl, refl),
  (_, refl, refl, refl, refl),
  (_, refl, refl, refl, refl),
)
