-- ===== src/Tests/Machine.antt =====
-- Concrete operations in the place of the crate `spl_math` and of the Solana runtime.
use solana_psm.Common.{
  ℕ, ◌+◌, ◌*◌, ◌/◌, ◌%◌, refl, List, [], ◌∷◌, none, Calc, ok, err, panic, nothing, ltb, leb, ◌==◌,
  if◌then◌else◌, u128_mod, arith,
}
use solana_psm.Common.Division.{ceil}
use solana_psm.Common.Bytes.{from_le_bytes}
use solana_psm.Error.{ProgramError}
use solana_psm.Math.{SplMath, IsSplMath, u256_mod}
use solana_psm.Runtime.{Runtime, IsRuntime, pos}

abbrev ceil_pair : ℕ → ℕ → Calc (ℕ × ℕ)
ceil_pair a b =
    if b == 0 then nothing else if leb b a then ok (ceil a b, ceil a (ceil a b)) else ok (0, 0)

abbrev pub exact_math : SplMath
exact_math = record {
  u256_checked_add = λ a b. if ltb (a + b) u256_mod then ok (a + b) else nothing;
  u256_checked_mul = λ a b. if ltb (a * b) u256_mod then ok (a * b) else nothing;
  u256_checked_div = λ a b. if b == 0 then nothing else ok (a / b);
  u256_mul = λ a b. if ltb (a * b) u256_mod then ok (a * b) else panic;
  u256_div = λ a b. if b == 0 then panic else ok (a / b);
  u256_rem = λ a b. if b == 0 then panic else ok (a % b);
  u256_as_u128 = λ a. if ltb a u128_mod then ok a else panic;
  u256_try_into_u128 = λ a. if ltb a u128_mod then ok a else nothing;
  u256_checked_ceil_div = ceil_pair;
  u128_checked_ceil_div = ceil_pair;
  precise_new = λ a. ok a;
  precise_add = λ a b. ok (a + b);
  precise_sub = λ a b. nothing;
  precise_mul = λ a b. ok (a * b);
  precise_div = λ a b. if b == 0 then nothing else ok (a / b);
  precise_sqrt = λ a. nothing;
  precise_floor = λ a. ok a;
  precise_ceiling = λ a. ok a;
  precise_to_imprecise = λ a. ok a;
}

pub exact_math-IsSplMath : IsSplMath exact_math
exact_math-IsSplMath = record {
  checked_add_lem = λ a b. refl;
  checked_mul_lem = λ a b. refl;
  checked_div_lem = λ a b. refl;
  mul_lem = λ a b. refl;
  div_lem = λ a b. refl;
  rem_lem = λ a b. refl;
  as_u128_lem = λ a. refl;
  try_into_u128_lem = λ a. refl;
  u256_ceil_div_lem = λ a b h le. ground arith;
  u256_ceil_div_zero = λ a. refl;
  u128_ceil_div_lem = λ a b h le. ground arith;
  u128_ceil_div_zero = λ a. refl;
}

-- The address of a permission is its authority's and 100.
abbrev address_of : List (List ℕ) → ℕ × ℕ
address_of (a ∷ b ∷ authority ∷ rest) = (from_le_bytes authority + 100, 255)
address_of [] = (0, 0)
address_of (a ∷ []) = (0, 0)
address_of (a ∷ b ∷ []) = (0, 0)

-- Account number 9 is the program, 8 the system program. An invoked program changes nothing.
abbrev pub test_runtime : Runtime
test_runtime = record {
  check_len =
      λ required given. if given == required then ok tt else err ProgramError.invalid_account_data;
  check_initialized = λ b. if b then ok tt else err ProgramError.uninitialized_account;
  check_spl_token_program_account = λ k. ok tt;
  unpack_account = λ bytes. err ProgramError.invalid_account_data;
  unpack_mint = λ bytes. err ProgramError.invalid_account_data;
  create_program_address = λ seeds program. none;
  find_program_address = λ seeds program. address_of seeds;
  unix_timestamp = ok (pos 1000);
  rent = ok (λ space. space);
  program_id = 9;
  system_program_id = 8;
  build = λ i. ok tt;
  invoke_signed = λ i keys seeds w. ok w;
}

pub test_runtime-IsRuntime : IsRuntime test_runtime
test_runtime-IsRuntime = record {
  check_len_lem = λ required given. refl;
  check_initialized_lem = λ b. refl;
}
