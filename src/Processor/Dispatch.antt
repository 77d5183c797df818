-- ===== src/Processor/Dispatch.antt =====
-- How an instruction reaches its handler (program/src/processor.rs).
pub mod Packed
pub mod Trading
pub mod Wire
use solana_psm.Common.{ℕ, Bool, Option, List}
use solana_psm.Math.{SplMath}
use solana_psm.Constraints.{SwapConstraints, swap_constraints, ExtensionTypes}
use solana_psm.Runtime.{Pubkey, Runtime, AccountInfo}
use solana_psm.Runtime.Action.{Action, ◌>>=◌, lift}
use solana_psm.Instruction.{
  SwapInstruction, initialize, swap, deposit_all_token_types, withdraw_all_token_types,
  deposit_single_token_type_exact_amount_in, withdraw_single_token_type_exact_amount_out, set_rates,
  initialize_permission, update_permission, unpack,
}
use solana_psm.Permission.Handlers.{process_initialize_permission, process_update_permission}
use solana_psm.RedemptionRateProcessor.{process_curve_update}
use solana_psm.Processor.Initialize.{process_initialize}
use solana_psm.Processor.Swap.{process_swap}
use solana_psm.Processor.DepositAll.{process_deposit_all_token_types}
use solana_psm.Processor.WithdrawAll.{process_withdraw_all_token_types}
use solana_psm.Processor.DepositSingle.{process_deposit_single_token_type_exact_amount_in}
use solana_psm.Processor.WithdrawSingle.{process_withdraw_single_token_type_exact_amount_out}

module _ (m : SplMath) (rt : Runtime) (types : ExtensionTypes) where
  -- The match on the instruction.
  unfoldable pub handle :
      Pubkey → List AccountInfo → Option SwapConstraints → SwapInstruction → Action (Unit {0})
  handle program_id accounts constraints (initialize i) =
      process_initialize m rt types program_id i.fees i.swap_curve accounts constraints
  handle program_id accounts constraints (swap i) =
      process_swap m rt program_id i.amount_in i.minimum_amount_out accounts
  handle program_id accounts constraints (deposit_all_token_types i) =
      process_deposit_all_token_types m rt program_id i.pool_token_amount i.maximum_token_a_amount
        i.maximum_token_b_amount accounts
  handle program_id accounts constraints (withdraw_all_token_types i) =
      process_withdraw_all_token_types m rt program_id i.pool_token_amount i.minimum_token_a_amount
        i.minimum_token_b_amount accounts
  handle program_id accounts constraints (deposit_single_token_type_exact_amount_in i) =
      process_deposit_single_token_type_exact_amount_in m rt program_id i.source_token_amount
        i.minimum_pool_token_amount accounts
  handle program_id accounts constraints (withdraw_single_token_type_exact_amount_out i) =
      process_withdraw_single_token_type_exact_amount_out m rt program_id i.destination_token_amount
        i.maximum_pool_token_amount accounts
  handle program_id accounts constraints (set_rates i) =
      process_curve_update m rt program_id accounts i.ssr i.rho i.chi
  handle program_id accounts constraints (initialize_permission i) =
      process_initialize_permission rt program_id accounts i.permission_authority i.is_super_admin
        i.can_update_parameters
  handle program_id accounts constraints (update_permission i) =
      process_update_permission rt program_id accounts i.is_super_admin i.can_update_parameters

  unfoldable pub process_with_constraints :
      Pubkey → List AccountInfo → List ℕ → Option SwapConstraints → Action (Unit {0})
  process_with_constraints program_id accounts input constraints = do
    instruction ← lift (unpack rt input)
    handle program_id accounts constraints instruction

  -- The build either has the feature `production` or not.
  unfoldable pub process :
      (production : Bool) → Option Pubkey → Pubkey → List AccountInfo → List ℕ → Action (Unit {0})
  process production owner_key program_id accounts input =
      process_with_constraints program_id accounts input (swap_constraints production owner_key)
