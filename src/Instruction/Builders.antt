-- ===== src/Instruction/Builders.antt =====
-- The builders of instructions for clients (program/src/instruction.rs).
pub mod Delivery
pub mod Keys
pub mod Opening
use solana_psm.Common.{
  Bool, true, false, Option, none, some, List, [], ◌∷◌, ◌++◌, ok, err, ◌>>=◌, if◌then◌else◌,
}
use solana_psm.Error.{ProgramError, Res}
use solana_psm.Fees.{Fees}
use solana_psm.Curve.Base.{SwapCurve, redemption_rate_curve}
use solana_psm.Constraints.{same_type}
use solana_psm.Runtime.{Pubkey, AccountMeta, new, new_readonly, Instruction}
use solana_psm.Instruction as Data
use solana_psm.Instruction.{pack}

-- What every builder does: the instruction is packed and joined with the accounts.
abbrev built : Pubkey → List AccountMeta → Data.SwapInstruction → Res Instruction
built program_id accounts instruction = do
  data_bytes ← pack instruction
  ok (record { program_id = program_id; accounts = accounts; data_bytes = data_bytes })

unfoldable pub deposit_all_token_types :
    (program_id token_a_program_id token_b_program_id pool_token_program_id swap_pubkey
      authority_pubkey user_transfer_authority_pubkey deposit_token_a_pubkey deposit_token_b_pubkey
      swap_token_a_pubkey swap_token_b_pubkey pool_mint_pubkey destination_pubkey
      token_a_mint_pubkey token_b_mint_pubkey : Pubkey)
    → Data.DepositAllTokenTypes
    → Res Instruction
deposit_all_token_types program_id token_a_program_id token_b_program_id pool_token_program_id
      swap_pubkey authority_pubkey user_transfer_authority_pubkey deposit_token_a_pubkey
      deposit_token_b_pubkey swap_token_a_pubkey swap_token_b_pubkey pool_mint_pubkey
      destination_pubkey token_a_mint_pubkey token_b_mint_pubkey instruction =
    built program_id
      (new_readonly swap_pubkey false
        ∷ new_readonly authority_pubkey false
        ∷ new_readonly user_transfer_authority_pubkey true
        ∷ new deposit_token_a_pubkey false
        ∷ new deposit_token_b_pubkey false
        ∷ new swap_token_a_pubkey false
        ∷ new swap_token_b_pubkey false
        ∷ new pool_mint_pubkey false
        ∷ new destination_pubkey false
        ∷ new_readonly token_a_mint_pubkey false
        ∷ new_readonly token_b_mint_pubkey false
        ∷ new_readonly token_a_program_id false
        ∷ new_readonly token_b_program_id false
        ∷ new_readonly pool_token_program_id false
        ∷ [])
      (Data.deposit_all_token_types instruction)

unfoldable pub withdraw_all_token_types :
    (program_id pool_token_program_id token_a_program_id token_b_program_id swap_pubkey
      authority_pubkey user_transfer_authority_pubkey pool_mint_pubkey fee_account_pubkey
      source_pubkey swap_token_a_pubkey swap_token_b_pubkey destination_token_a_pubkey
      destination_token_b_pubkey token_a_mint_pubkey token_b_mint_pubkey : Pubkey)
    → Data.WithdrawAllTokenTypes
    → Res Instruction
withdraw_all_token_types program_id pool_token_program_id token_a_program_id token_b_program_id
      swap_pubkey authority_pubkey user_transfer_authority_pubkey pool_mint_pubkey
      fee_account_pubkey source_pubkey swap_token_a_pubkey swap_token_b_pubkey
      destination_token_a_pubkey destination_token_b_pubkey token_a_mint_pubkey token_b_mint_pubkey
      instruction =
    built program_id
      (new_readonly swap_pubkey false
        ∷ new_readonly authority_pubkey false
        ∷ new_readonly user_transfer_authority_pubkey true
        ∷ new pool_mint_pubkey false
        ∷ new source_pubkey false
        ∷ new swap_token_a_pubkey false
        ∷ new swap_token_b_pubkey false
        ∷ new destination_token_a_pubkey false
        ∷ new destination_token_b_pubkey false
        ∷ new fee_account_pubkey false
        ∷ new_readonly token_a_mint_pubkey false
        ∷ new_readonly token_b_mint_pubkey false
        ∷ new_readonly pool_token_program_id false
        ∷ new_readonly token_a_program_id false
        ∷ new_readonly token_b_program_id false
        ∷ [])
      (Data.withdraw_all_token_types instruction)

unfoldable pub deposit_single_token_type_exact_amount_in :
    (program_id source_token_program_id pool_token_program_id swap_pubkey authority_pubkey
      user_transfer_authority_pubkey source_token_pubkey swap_token_a_pubkey swap_token_b_pubkey
      pool_mint_pubkey destination_pubkey source_mint_pubkey : Pubkey)
    → Data.DepositSingleTokenTypeExactAmountIn
    → Res Instruction
deposit_single_token_type_exact_amount_in program_id source_token_program_id pool_token_program_id
      swap_pubkey authority_pubkey user_transfer_authority_pubkey source_token_pubkey
      swap_token_a_pubkey swap_token_b_pubkey pool_mint_pubkey destination_pubkey source_mint_pubkey
      instruction =
    built program_id
      (new_readonly swap_pubkey false
        ∷ new_readonly authority_pubkey false
        ∷ new_readonly user_transfer_authority_pubkey true
        ∷ new source_token_pubkey false
        ∷ new swap_token_a_pubkey false
        ∷ new swap_token_b_pubkey false
        ∷ new pool_mint_pubkey false
        ∷ new destination_pubkey false
        ∷ new_readonly source_mint_pubkey false
        ∷ new_readonly source_token_program_id false
        ∷ new_readonly pool_token_program_id false
        ∷ [])
      (Data.deposit_single_token_type_exact_amount_in instruction)

unfoldable pub withdraw_single_token_type_exact_amount_out :
    (program_id pool_token_program_id destination_token_program_id swap_pubkey authority_pubkey
      user_transfer_authority_pubkey pool_mint_pubkey fee_account_pubkey pool_token_source_pubkey
      swap_token_a_pubkey swap_token_b_pubkey destination_pubkey destination_mint_pubkey : Pubkey)
    → Data.WithdrawSingleTokenTypeExactAmountOut
    → Res Instruction
withdraw_single_token_type_exact_amount_out program_id pool_token_program_id
      destination_token_program_id swap_pubkey authority_pubkey user_transfer_authority_pubkey
      pool_mint_pubkey fee_account_pubkey pool_token_source_pubkey swap_token_a_pubkey
      swap_token_b_pubkey destination_pubkey destination_mint_pubkey instruction =
    built program_id
      (new_readonly swap_pubkey false
        ∷ new_readonly authority_pubkey false
        ∷ new_readonly user_transfer_authority_pubkey true
        ∷ new pool_mint_pubkey false
        ∷ new pool_token_source_pubkey false
        ∷ new swap_token_a_pubkey false
        ∷ new swap_token_b_pubkey false
        ∷ new destination_pubkey false
        ∷ new fee_account_pubkey false
        ∷ new_readonly destination_mint_pubkey false
        ∷ new_readonly pool_token_program_id false
        ∷ new_readonly destination_token_program_id false
        ∷ [])
      (Data.withdraw_single_token_type_exact_amount_out instruction)

-- The host's account, if there is one.
abbrev host_account : Option Pubkey → List AccountMeta
host_account none = []
host_account (some host_fee_pubkey) = new host_fee_pubkey false ∷ []

unfoldable pub swap :
    (program_id source_token_program_id destination_token_program_id pool_token_program_id
      swap_pubkey authority_pubkey user_transfer_authority_pubkey source_pubkey swap_source_pubkey
      swap_destination_pubkey destination_pubkey pool_mint_pubkey pool_fee_pubkey source_mint_pubkey
      destination_mint_pubkey : Pubkey)
    → Option Pubkey
    → Data.Swap
    → Res Instruction
swap program_id source_token_program_id destination_token_program_id pool_token_program_id
      swap_pubkey authority_pubkey user_transfer_authority_pubkey source_pubkey swap_source_pubkey
      swap_destination_pubkey destination_pubkey pool_mint_pubkey pool_fee_pubkey source_mint_pubkey
      destination_mint_pubkey host_fee_pubkey instruction =
    built program_id
      ((new_readonly swap_pubkey false
          ∷ new_readonly authority_pubkey false
          ∷ new_readonly user_transfer_authority_pubkey true
          ∷ new source_pubkey false
          ∷ new swap_source_pubkey false
          ∷ new swap_destination_pubkey false
          ∷ new destination_pubkey false
          ∷ new pool_mint_pubkey false
          ∷ new pool_fee_pubkey false
          ∷ new_readonly source_mint_pubkey false
          ∷ new_readonly destination_mint_pubkey false
          ∷ new_readonly source_token_program_id false
          ∷ new_readonly destination_token_program_id false
          ∷ new_readonly pool_token_program_id false
          ∷ [])
        ++ host_account host_fee_pubkey)
      (Data.swap instruction)

pub record RedemptionRateExtraAccounts : Type 0 where
  pub permission_account : Pubkey
  pub authority : Pubkey
  pub payer : Pubkey
  pub system_program : Pubkey

-- `ok_or` on the extra accounts, and their metas.
abbrev pub extra_metas : Option RedemptionRateExtraAccounts → Res (List AccountMeta)
extra_metas none = err ProgramError.invalid_instruction_data
extra_metas (some x) = ok (
    new x.permission_account false
    ∷ new_readonly x.authority false
    ∷ new x.payer true
    ∷ new_readonly x.system_program false
    ∷ [])

unfoldable pub initialize :
    (program_id token_program_id swap_pubkey authority_pubkey token_a_pubkey token_b_pubkey
      pool_pubkey token_a_mint_pubkey token_b_mint_pubkey fee_pubkey destination_pubkey : Pubkey)
    → Fees
    → SwapCurve
    → Option RedemptionRateExtraAccounts
    → Res Instruction
initialize program_id token_program_id swap_pubkey authority_pubkey token_a_pubkey token_b_pubkey
      pool_pubkey token_a_mint_pubkey token_b_mint_pubkey fee_pubkey destination_pubkey fees
      swap_curve redemption_rate_extra_accounts =
    do
      data_bytes ← pack (Data.initialize (record { fees = fees; swap_curve = swap_curve }))
      extra ←
          (if same_type swap_curve.curve_type redemption_rate_curve
            then extra_metas redemption_rate_extra_accounts
            else ok [])
      ok (record {
        program_id = program_id;
        accounts =
            (new swap_pubkey true
              ∷ new_readonly authority_pubkey false
              ∷ new_readonly token_a_pubkey false
              ∷ new_readonly token_b_pubkey false
              ∷ new pool_pubkey false
              ∷ new_readonly token_a_mint_pubkey false
              ∷ new_readonly token_b_mint_pubkey false
              ∷ new_readonly fee_pubkey false
              ∷ new destination_pubkey false
              ∷ new_readonly token_program_id false
              ∷ [])
            ++ extra;
        data_bytes = data_bytes;
      })
