-- ===== src/Error.antt =====
-- Error types (program/src/error.rs): `SwapError`, its numeric codes, and the errors of the runtime
-- (`solana_program::program_error::ProgramError`) that the program returns.
use solana_psm.Common.{ℕ, Option, none, some, Outcome, ok, err, panic, ◌==◌}
use solana_psm.Common.{if◌then◌else◌}

pub data SwapError : Type 0 where
  already_in_use : SwapError
  invalid_program_address : SwapError
  invalid_owner : SwapError
  invalid_output_owner : SwapError
  expected_mint : SwapError
  expected_account : SwapError
  empty_supply : SwapError
  invalid_supply : SwapError
  invalid_delegate : SwapError
  invalid_input : SwapError
  incorrect_swap_account : SwapError
  incorrect_pool_mint : SwapError
  invalid_output : SwapError
  calculation_failure : SwapError
  invalid_instruction : SwapError
  repeated_mint : SwapError
  exceeded_slippage : SwapError
  invalid_close_authority : SwapError
  invalid_freeze_authority : SwapError
  incorrect_fee_account : SwapError
  zero_trading_tokens : SwapError
  fee_calculation_failure : SwapError
  conversion_failure : SwapError
  invalid_fee : SwapError
  incorrect_token_program_id : SwapError
  unsupported_curve_type : SwapError
  invalid_curve : SwapError
  unsupported_curve_operation : SwapError
  invalid_fee_account : SwapError
  missing_timestamp : SwapError
  invalid_rho : SwapError
  invalid_ssr : SwapError
  invalid_chi : SwapError
  invalid_permission_address : SwapError
  invalid_update_permission : SwapError
  invalid_ray : SwapError
  unsupported_token_extension : SwapError
  mismatched_mint_decimals : SwapError
  invalid_account_mint : SwapError

-- `e as u32`
unfoldable pub code : SwapError → ℕ
code already_in_use = 0
code invalid_program_address = 1
code invalid_owner = 2
code invalid_output_owner = 3
code expected_mint = 4
code expected_account = 5
code empty_supply = 6
code invalid_supply = 7
code invalid_delegate = 8
code invalid_input = 9
code incorrect_swap_account = 10
code incorrect_pool_mint = 11
code invalid_output = 12
code calculation_failure = 13
code invalid_instruction = 14
code repeated_mint = 15
code exceeded_slippage = 16
code invalid_close_authority = 17
code invalid_freeze_authority = 18
code incorrect_fee_account = 19
code zero_trading_tokens = 20
code fee_calculation_failure = 21
code conversion_failure = 22
code invalid_fee = 23
code incorrect_token_program_id = 24
code unsupported_curve_type = 25
code invalid_curve = 26
code unsupported_curve_operation = 27
code invalid_fee_account = 28
code missing_timestamp = 29
code invalid_rho = 30
code invalid_ssr = 31
code invalid_chi = 32
code invalid_permission_address = 33
code invalid_update_permission = 34
code invalid_ray = 35
code unsupported_token_extension = 36
code mismatched_mint_decimals = 37
code invalid_account_mint = 38

-- The derived `FromPrimitive`, by which an error code is decoded for printing.
unfoldable pub from_u32 : ℕ → Option SwapError
from_u32 n =
    if n == 0
    then some already_in_use
    else if n == 1
    then some invalid_program_address
    else if n == 2
    then some invalid_owner
    else if n == 3
    then some invalid_output_owner
    else if n == 4
    then some expected_mint
    else if n == 5
    then some expected_account
    else if n == 6
    then some empty_supply
    else if n == 7
    then some invalid_supply
    else if n == 8
    then some invalid_delegate
    else if n == 9
    then some invalid_input
    else if n == 10
    then some incorrect_swap_account
    else if n == 11
    then some incorrect_pool_mint
    else if n == 12
    then some invalid_output
    else if n == 13
    then some calculation_failure
    else if n == 14
    then some invalid_instruction
    else if n == 15
    then some repeated_mint
    else if n == 16
    then some exceeded_slippage
    else if n == 17
    then some invalid_close_authority
    else if n == 18
    then some invalid_freeze_authority
    else if n == 19
    then some incorrect_fee_account
    else if n == 20
    then some zero_trading_tokens
    else if n == 21
    then some fee_calculation_failure
    else if n == 22
    then some conversion_failure
    else if n == 23
    then some invalid_fee
    else if n == 24
    then some incorrect_token_program_id
    else if n == 25
    then some unsupported_curve_type
    else if n == 26
    then some invalid_curve
    else if n == 27
    then some unsupported_curve_operation
    else if n == 28
    then some invalid_fee_account
    else if n == 29
    then some missing_timestamp
    else if n == 30
    then some invalid_rho
    else if n == 31
    then some invalid_ssr
    else if n == 32
    then some invalid_chi
    else if n == 33
    then some invalid_permission_address
    else if n == 34
    then some invalid_update_permission
    else if n == 35
    then some invalid_ray
    else if n == 36
    then some unsupported_token_extension
    else if n == 37
    then some mismatched_mint_decimals
    else if n == 38
    then some invalid_account_mint
    else none

pub data ProgramError : Type 0 where
  custom : ℕ → ProgramError
  invalid_argument : ProgramError
  invalid_instruction_data : ProgramError
  invalid_account_data : ProgramError
  account_data_too_small : ProgramError
  insufficient_funds : ProgramError
  incorrect_program_id : ProgramError
  missing_required_signature : ProgramError
  account_already_initialized : ProgramError
  uninitialized_account : ProgramError
  not_enough_account_keys : ProgramError
  invalid_account_owner : ProgramError
  arithmetic_overflow : ProgramError
  illegal_owner : ProgramError
  unsupported_sysvar : ProgramError

-- `impl From<SwapError> for ProgramError`
abbrev pub from_swap_error : SwapError → ProgramError
from_swap_error e = custom (code e)

-- A `Result` of the source.
abbrev pub Res : Type 0 → Type 0
Res A = Outcome ProgramError A

-- `?` on a `Result<_, SwapError>` where a `ProgramError` is returned.
abbrev pub into : {A : Type 0} → Outcome SwapError A → Res A
into (ok a) = ok a
into (err e) = err (from_swap_error e)
into panic = panic
