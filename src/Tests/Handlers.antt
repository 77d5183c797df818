-- ===== src/Tests/Handlers.antt =====
-- Runs of the handlers of permissions and of rates.
use solana_psm.Common.{
  ℕ, ◌*◌, ◌≡◌, refl, ok, List, [], ◌∷◌, ◌++◌, true, false, ◌==◌, if◌then◌else◌, checked_sub,
}
use solana_psm.Common.Bytes.{to_le_bytes, from_le_bytes, split_at, take, drop, write_front}
use solana_psm.Curve.Priced.{ray}
use solana_psm.Curve.Base.{redemption_rate, as_u8, try_from}
use solana_psm.Curve.Encoding.{calculator_bytes, unpack_calculator, unpack_redemption_rate}
use solana_psm.Curve.Encoding
use solana_psm.Curve.RedemptionRate.{
  RedemptionRateCurve, rpow, rpow_loop, rmul, set_rates, check_update, chi_limit,
}
use solana_psm.Fees
use solana_psm.Runtime.{World, AccountInfo}
use solana_psm.Runtime.Action.{with_data}
use solana_psm.State.{SwapV1, head_bytes, read_bool}
use solana_psm.State
use solana_psm.Permission.{
  Permission, validate_super_admin_permission, validate_update_params_permission,
}
use solana_psm.Permission
use solana_psm.Permission.Account.{
  derive_permission_pubkey_and_bump, unpack_permission, create_permission_account,
  refuse_initialized, adopt_account,
}
use solana_psm.Permission.Handlers.{process_initialize_permission, process_update_permission}
use solana_psm.Permission.Handlers.Authority.{PermissionUpdate, process_update_permission-Grants}
use solana_psm.Permission.Handlers.Creation.{
  PermissionCreation, process_initialize_permission-Grants,
}
use solana_psm.RedemptionRateProcessor.{
  as_u128, extract_curve, create_new_swap_state, process_curve_update,
}
use solana_psm.RedemptionRateProcessor.Authority.{RatesUpdate, process_curve_update-Grants}
use solana_psm.Instruction.{zeros}
use solana_psm.Tests.Machine.{exact_math, test_runtime}
use solana_psm.Tests.Packing.{test_swap, test_permission, rate_curve}

-- The data of a swap account.
abbrev pub swap_bytes : SwapV1 → List ℕ
swap_bytes s =
    1 ∷ (head_bytes s ++ (as_u8 s.swap_curve.curve_type ∷ calculator_bytes s.swap_curve.calculator))

-- The permission of the account that number 5 signs for.
abbrev other_permission : Permission
other_permission = record test_permission { authority = 5; is_super_admin = false }

-- Account 1 is the swap, 104 and 105 are permissions of 4 and 5, and 106 is a new account.
abbrev test_world : World
test_world k =
    if k == 1
    then record { owner = 9; lamports = 1; bytes = swap_bytes test_swap }
    else if k == 104
    then record { owner = 9; lamports = 1; bytes = Permission.to_bytes test_permission }
    else if k == 105
    then record { owner = 9; lamports = 1; bytes = Permission.to_bytes other_permission }
    else record { owner = 8; lamports = 0; bytes = zeros 67 }

abbrev account : ℕ → AccountInfo
account k = record { key = k; is_signer = k == 4 }

abbrev updated_world : World
updated_world = with_data test_world 105 (
    Permission.to_bytes
      (record other_permission { is_super_admin = true; can_update_parameters = false }))

update_permission_runs :
    process_update_permission test_runtime 9
      (account 1 ∷ account 104 ∷ account 105 ∷ account 4 ∷ [])
      true
      false
      test_world
    ≡ ok (tt, updated_world)
unfolding process_update_permission unpack_permission derive_permission_pubkey_and_bump
    validate_super_admin_permission Permission.unpack Permission.unpack_unchecked
    Permission.unpack_from_slice Permission.pack Permission.pack_into_slice Permission.to_bytes
    zeros to_le_bytes from_le_bytes split_at take drop write_front
update_permission_runs = refl

process_update_permission-Grants_example :
    PermissionUpdate test_runtime 9
      (account 1)
      (account 104)
      (account 105)
      (account 4)
      true
      false
      test_world
      updated_world
process_update_permission-Grants_example =
    process_update_permission-Grants test_runtime 9 (account 1) (account 104) (account 105)
      (account 4) [] true false test_world updated_world update_permission_runs

abbrev created_world : World
created_world = with_data test_world 106 (
    Permission.to_bytes (record {
      is_initialized = true;
      swap = 1;
      authority = 6;
      is_super_admin = false;
      can_update_parameters = true;
    }))

initialize_permission_runs :
    process_initialize_permission test_runtime 9
      (account 1 ∷ account 104 ∷ account 106 ∷ account 4 ∷ account 7 ∷ account 8 ∷ [])
      6
      false
      true
      test_world
    ≡ ok (tt, created_world)
unfolding process_initialize_permission create_permission_account refuse_initialized adopt_account
    unpack_permission derive_permission_pubkey_and_bump validate_super_admin_permission
    Permission.unpack Permission.unpack_unchecked Permission.unpack_from_slice Permission.pack
    Permission.pack_into_slice Permission.to_bytes zeros to_le_bytes from_le_bytes split_at take
    drop write_front
initialize_permission_runs = refl

process_initialize_permission-Grants_example :
    PermissionCreation test_runtime 9
      (account 1)
      (account 104)
      (account 106)
      (account 4)
      (account 7)
      (account 8)
      6
      false
      true
      test_world
      created_world
process_initialize_permission-Grants_example =
    process_initialize_permission-Grants test_runtime 9 (account 1) (account 104) (account 106)
      (account 4) (account 7) (account 8) [] 6 false true test_world created_world
      initialize_permission_runs

abbrev new_rates : RedemptionRateCurve
new_rates = record rate_curve { ssr = ray; rho = 13; chi = 7 * ray }

abbrev rates_world : World
rates_world = with_data test_world 1 (
    swap_bytes (record test_swap {
      swap_curve = record test_swap.swap_curve { calculator = redemption_rate new_rates };
    }))

curve_update_runs :
    process_curve_update exact_math test_runtime 9
      (account 1 ∷ account 104 ∷ account 4 ∷ [])
      ray
      13
      (7 * ray)
      test_world
    ≡ ok (tt, rates_world)
unfolding process_curve_update create_new_swap_state extract_curve as_u128 set_rates check_update
    chi_limit rpow rpow_loop rmul checked_sub unpack_permission derive_permission_pubkey_and_bump
    validate_update_params_permission Permission.unpack Permission.unpack_unchecked
    Permission.unpack_from_slice Permission.to_bytes State.unpack State.unpack_from_slice State.pack
    State.pack_into_slice read_bool head_bytes Fees.to_bytes Fees.unpack_from_slice
    Encoding.unpack_from_slice Encoding.pack_into_slice calculator_bytes unpack_calculator
    unpack_redemption_rate as_u8 try_from to_le_bytes from_le_bytes split_at take drop write_front
curve_update_runs = refl

process_curve_update-Grants_example :
    RatesUpdate exact_math test_runtime 9
      (account 1)
      (account 104)
      (account 4)
      ray
      13
      (7 * ray)
      test_world
      rates_world
process_curve_update-Grants_example =
    process_curve_update-Grants exact_math test_runtime 9 (account 1) (account 104) (account 4) []
      ray 13 (7 * ray) test_world rates_world curve_update_runs
