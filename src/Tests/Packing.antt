-- ===== src/Tests/Packing.antt =====
-- Packed accounts and instructions at concrete values.
use solana_psm.Common.{ℕ, ◌*◌, ◌≡◌, refl, ok, List, [], ◌∷◌, ◌++◌, true, arith}
use solana_psm.Common.Bytes.{length}
use solana_psm.Fees
use solana_psm.Curve.Priced.{ray}
use solana_psm.Curve.Base.{redemption_rate_curve, redemption_rate}
use solana_psm.Curve.RedemptionRate.{RedemptionRateCurve}
use solana_psm.State.{SwapV1}
use solana_psm.State
use solana_psm.State.RoundTrip.{IsSwap, unpack-pack_swap}
use solana_psm.Permission.{Permission}
use solana_psm.Permission
use solana_psm.Permission.RoundTrip.{unpack-pack_permission}
use solana_psm.Instruction.{zeros, SwapInstruction, initialize}
use solana_psm.Instruction
use solana_psm.Instruction.RoundTrip.{unpack-pack_instruction}
use solana_psm.Fees.Packing.{unpack_from_slice-to_bytes}
use solana_psm.Curve.Charging.Overcharge.{tenth_fees}
use solana_psm.Tests.Machine.{test_runtime, test_runtime-IsRuntime}
use solana_psm.Tests.Fees.{tenth_fees-IsFees}

abbrev pub rate_curve : RedemptionRateCurve
rate_curve = record { max_ssr = 2 * ray; ssr = 2 * ray; rho = 10; chi = ray }

abbrev pub test_swap : SwapV1
test_swap = record {
  is_initialized = true;
  bump_seed = 254;
  token_program_id = 21;
  token_a = 22;
  token_b = 23;
  pool_mint = 24;
  token_a_mint = 25;
  token_b_mint = 26;
  pool_fee_account = 27;
  fees = tenth_fees;
  swap_curve = record {
    curve_type = redemption_rate_curve;
    calculator = redemption_rate rate_curve;
  };
}

test_swap-IsSwap : IsSwap test_swap
test_swap-IsSwap = record {
  bump = omega arith;
  program = omega arith;
  a = omega arith;
  b = omega arith;
  mint = omega arith;
  a_mint = omega arith;
  b_mint = omega arith;
  fee_account = omega arith;
  fees_range = tenth_fees-IsFees;
  calculator_range = (omega arith, omega arith, omega arith, omega arith);
  curve_matches = refl;
}

abbrev pub test_permission : Permission
test_permission = record {
  is_initialized = true;
  swap = 1;
  authority = 4;
  is_super_admin = true;
  can_update_parameters = true;
}

zeros_356 : length (zeros 356) ≡ 356
unfolding zeros
zeros_356 = refl

zeros_67 : length (zeros 67) ≡ 67
unfolding zeros
zeros_67 = refl

unpack-pack_swap_example :
    (out' : List ℕ) × (State.pack test_runtime test_swap (zeros 356) ≡ ok out')
    × (State.unpack test_runtime out' ≡ ok test_swap)
    × (length out' ≡ 356)
    × (State.is_initialized out' ≡ true)
unpack-pack_swap_example =
    unpack-pack_swap test_runtime test_runtime-IsRuntime test_swap (zeros 356) test_swap-IsSwap refl
      zeros_356

unpack-pack_permission_example :
    (out' : List ℕ) × (Permission.pack test_runtime test_permission (zeros 67) ≡ ok out')
    × (Permission.unpack test_runtime out' ≡ ok test_permission)
    × (length out' ≡ 67)
unpack-pack_permission_example =
    unpack-pack_permission test_runtime test_runtime-IsRuntime test_permission (zeros 67)
      (record { swap_range = omega arith; authority_range = omega arith }) refl zeros_67

abbrev test_instruction : SwapInstruction
test_instruction = initialize (record { fees = tenth_fees; swap_curve = test_swap.swap_curve })

unpack-pack_instruction_example :
    (bytes : List ℕ) × (Instruction.pack test_instruction ≡ ok bytes)
    × (Instruction.unpack test_runtime bytes ≡ ok test_instruction)
unfolding Instruction.RoundTrip.IsInstruction
unpack-pack_instruction_example =
    unpack-pack_instruction test_runtime test_runtime-IsRuntime test_instruction
      (tenth_fees-IsFees, (omega arith, omega arith, omega arith, omega arith), refl)

unpack_from_slice-to_bytes_example :
    Fees.unpack_from_slice (Fees.to_bytes tenth_fees ++ (7 ∷ [])) ≡ ok tenth_fees
unpack_from_slice-to_bytes_example =
    unpack_from_slice-to_bytes tenth_fees (7 ∷ []) tenth_fees-IsFees
