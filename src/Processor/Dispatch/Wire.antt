-- ===== src/Processor/Dispatch/Wire.antt =====
-- From the bytes that the program is given to the run of a handler (program/src/processor.rs,
-- program/src/instruction.rs).
use solana_psm.Common.{ℕ, ◌<◌, ◌≡◌, refl, Bool, Option, List, ◌∷◌, ◌++◌, ok, u64_mod, u128_mod}
use solana_psm.Common.Bytes.{to_le_bytes}
use solana_psm.Fees.{IsFees}
use solana_psm.Curve.Encoding.RoundTrip.{type_of, IsCalculator}
use solana_psm.Math.{SplMath}
use solana_psm.Constraints.{ExtensionTypes, swap_constraints}
use solana_psm.Runtime.{Pubkey, Runtime, IsRuntime, World, AccountInfo}
use solana_psm.Runtime.Action.{Action}
use solana_psm.State.RoundTrip.{pubkey_mod}
use solana_psm.Instruction.{
  SwapInstruction, Initialize, initialize, swap, deposit_all_token_types, withdraw_all_token_types,
  deposit_single_token_type_exact_amount_in, withdraw_single_token_type_exact_amount_out, set_rates,
  initialize_permission, update_permission, pack, flags,
}
use solana_psm.Instruction.RoundTrip.{IsInstruction, initialize_bytes, pack-initialize}
use solana_psm.Permission.Handlers.{process_initialize_permission, process_update_permission}
use solana_psm.RedemptionRateProcessor.{process_curve_update}
use solana_psm.Processor.Initialize.{process_initialize}
use solana_psm.Processor.Swap.{process_swap}
use solana_psm.Processor.DepositAll.{process_deposit_all_token_types}
use solana_psm.Processor.WithdrawAll.{process_withdraw_all_token_types}
use solana_psm.Processor.DepositSingle.{process_deposit_single_token_type_exact_amount_in}
use solana_psm.Processor.WithdrawSingle.{process_withdraw_single_token_type_exact_amount_out}
use solana_psm.Processor.Dispatch.{handle, process}
use solana_psm.Processor.Dispatch.Packed.{process-pack}

-- What the bytes of an instruction ask for: the tag, the little-endian numbers in their widths, and the
-- handler that is to run, with which number in which place.
module _ (m : SplMath) (rt : Runtime) (types : ExtensionTypes) (production : Bool)
    (owner_key : Option Pubkey) (program : Pubkey) (accounts : List AccountInfo) where
  pub data Wire : List ℕ → Action (Unit {0}) → Type 0 where
    opens :
        (i : Initialize)
        → IsFees i.fees
        → IsCalculator i.swap_curve.calculator
        → i.swap_curve.curve_type ≡ type_of i.swap_curve.calculator
        → Wire (0 ∷ initialize_bytes i) (
            process_initialize m rt types program i.fees i.swap_curve accounts
              (swap_constraints production owner_key))
    swaps :
        (amount_in minimum_out : ℕ)
        → amount_in < u64_mod
        → minimum_out < u64_mod
        → Wire
            (1 ∷ (to_le_bytes 8 amount_in ++ to_le_bytes 8 minimum_out))
            (process_swap m rt program amount_in minimum_out accounts)
    deposits :
        (pool_tokens maximum_a maximum_b : ℕ)
        → pool_tokens < u64_mod
        → maximum_a < u64_mod
        → maximum_b < u64_mod
        → Wire
            (2
              ∷ (to_le_bytes 8 pool_tokens ++ (to_le_bytes 8 maximum_a ++ to_le_bytes 8 maximum_b)))
            (process_deposit_all_token_types m rt program pool_tokens maximum_a maximum_b accounts)
    withdraws :
        (pool_tokens minimum_a minimum_b : ℕ)
        → pool_tokens < u64_mod
        → minimum_a < u64_mod
        → minimum_b < u64_mod
        → Wire
            (3
              ∷ (to_le_bytes 8 pool_tokens ++ (to_le_bytes 8 minimum_a ++ to_le_bytes 8 minimum_b)))
            (process_withdraw_all_token_types m rt program pool_tokens minimum_a minimum_b accounts)
    deposits_one :
        (amount_in minimum_pool_tokens : ℕ)
        → amount_in < u64_mod
        → minimum_pool_tokens < u64_mod
        → Wire (4 ∷ (to_le_bytes 8 amount_in ++ to_le_bytes 8 minimum_pool_tokens)) (
            process_deposit_single_token_type_exact_amount_in m rt program amount_in
              minimum_pool_tokens accounts)
    withdraws_one :
        (amount_out maximum_pool_tokens : ℕ)
        → amount_out < u64_mod
        → maximum_pool_tokens < u64_mod
        → Wire (5 ∷ (to_le_bytes 8 amount_out ++ to_le_bytes 8 maximum_pool_tokens)) (
            process_withdraw_single_token_type_exact_amount_out m rt program amount_out
              maximum_pool_tokens accounts)
    sets_rates :
        (ssr rho chi : ℕ)
        → ssr < u128_mod
        → rho < u128_mod
        → chi < u128_mod
        → Wire
            (6 ∷ (to_le_bytes 16 ssr ++ (to_le_bytes 16 rho ++ to_le_bytes 16 chi)))
            (process_curve_update m rt program accounts ssr rho chi)
    grants :
        (authority : Pubkey) (is_super_admin can_update_parameters : Bool)
        → authority < pubkey_mod
        → Wire (7 ∷ (to_le_bytes 32 authority ++ flags is_super_admin can_update_parameters)) (
            process_initialize_permission rt program accounts authority is_super_admin
              can_update_parameters)
    regrants :
        (is_super_admin can_update_parameters : Bool)
        → Wire
            (8 ∷ flags is_super_admin can_update_parameters)
            (process_update_permission rt program accounts is_super_admin can_update_parameters)

  module _ (laws : IsRuntime rt) where
    arrives :
        (i : SwapInstruction) (bytes : List ℕ) (w : World)
        → IsInstruction i
        → pack i ≡ ok bytes
        → process m rt types production owner_key program accounts bytes w
          ≡ handle m rt types program accounts (swap_constraints production owner_key) i w
    arrives i bytes w range packs =
        let (given, packed, runs) =
          process-pack m rt laws types i production owner_key program accounts w range in
        let same : given ≡ bytes = cc (packed, packs) in rw same at runs

    -- Given bytes that ask for a handler by their tag, with the numbers of the instruction after it,
    -- the program runs this handler with these numbers, on the accounts and, for a new pool, with the
    -- build's constraints. (The numbers fit their widths, and a curve's type is that of its calculator.)
    pub process-Wire :
        {bytes : List ℕ} {run : Action (Unit {0})} (w : World)
        → Wire bytes run
        → process m rt types production owner_key program accounts bytes w ≡ run w
    unfolding pack handle IsInstruction
    process-Wire w (opens i fees calculator matches) =
        arrives (initialize i) _ w (fees, calculator, matches) (pack-initialize i)
    process-Wire w (swaps a b ha hb) =
        arrives (swap (record { amount_in = a; minimum_amount_out = b })) _ w (ha, hb) refl
    process-Wire w (deposits t a b ht ha hb) =
        arrives
          (deposit_all_token_types (record {
            pool_token_amount = t;
            maximum_token_a_amount = a;
            maximum_token_b_amount = b;
          }))
          _ w (ht, ha, hb) refl
    process-Wire w (withdraws t a b ht ha hb) =
        arrives
          (withdraw_all_token_types (record {
            pool_token_amount = t;
            minimum_token_a_amount = a;
            minimum_token_b_amount = b;
          }))
          _ w (ht, ha, hb) refl
    process-Wire w (deposits_one a b ha hb) =
        arrives
          (deposit_single_token_type_exact_amount_in
            (record { source_token_amount = a; minimum_pool_token_amount = b }))
          _ w (ha, hb) refl
    process-Wire w (withdraws_one a b ha hb) =
        arrives
          (withdraw_single_token_type_exact_amount_out
            (record { destination_token_amount = a; maximum_pool_token_amount = b }))
          _ w (ha, hb) refl
    process-Wire w (sets_rates ssr rho chi h1 h2 h3) =
        arrives (set_rates (record { ssr = ssr; rho = rho; chi = chi })) _ w (h1, h2, h3) refl
    process-Wire w (grants authority b c h) =
        arrives
          (initialize_permission (record {
            permission_authority = authority;
            is_super_admin = b;
            can_update_parameters = c;
          }))
          _ w h refl
    process-Wire w (regrants b c) =
        arrives (update_permission (record { is_super_admin = b; can_update_parameters = c })) _ w
          tt refl
