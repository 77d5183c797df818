-- ===== src/Instruction.antt =====
-- The program's instructions and their bytes (program/src/instruction.rs).
pub mod RoundTrip
pub mod Builders
use solana_psm.Common.{
  ℕ, zero, suc, ◌+◌, Bool, true, false, List, [], ◌∷◌, ◌++◌, Outcome, ok, err, panic, ◌>>=◌, ◌>>◌,
  leb, ◌==◌, if◌then◌else◌,
}
use solana_psm.Common.Bytes.{length, to_le_bytes, from_le_bytes, split_at, write_front}
use solana_psm.Error.{SwapError, ProgramError, Res, from_swap_error}
use solana_psm.Fees
use solana_psm.Fees.{Fees}
use solana_psm.Curve.Base.{SwapCurve}
use solana_psm.Curve.Encoding
use solana_psm.Runtime.{Pubkey, Runtime}
use solana_psm.State.{bool_byte}

pub record Initialize : Type 0 where
  pub fees : Fees
  pub swap_curve : SwapCurve

pub record Swap : Type 0 where
  pub amount_in : ℕ
  pub minimum_amount_out : ℕ

pub record DepositAllTokenTypes : Type 0 where
  pub pool_token_amount : ℕ
  pub maximum_token_a_amount : ℕ
  pub maximum_token_b_amount : ℕ

pub record WithdrawAllTokenTypes : Type 0 where
  pub pool_token_amount : ℕ
  pub minimum_token_a_amount : ℕ
  pub minimum_token_b_amount : ℕ

pub record DepositSingleTokenTypeExactAmountIn : Type 0 where
  pub source_token_amount : ℕ
  pub minimum_pool_token_amount : ℕ

pub record WithdrawSingleTokenTypeExactAmountOut : Type 0 where
  pub destination_token_amount : ℕ
  pub maximum_pool_token_amount : ℕ

pub record SetRates : Type 0 where
  pub ssr : ℕ
  pub rho : ℕ
  pub chi : ℕ

pub record InitializePermission : Type 0 where
  pub permission_authority : Pubkey
  pub is_super_admin : Bool
  pub can_update_parameters : Bool

pub record UpdatePermission : Type 0 where
  pub is_super_admin : Bool
  pub can_update_parameters : Bool

pub data SwapInstruction : Type 0 where
  initialize : Initialize → SwapInstruction
  swap : Swap → SwapInstruction
  deposit_all_token_types : DepositAllTokenTypes → SwapInstruction
  withdraw_all_token_types : WithdrawAllTokenTypes → SwapInstruction
  deposit_single_token_type_exact_amount_in : DepositSingleTokenTypeExactAmountIn → SwapInstruction
  withdraw_single_token_type_exact_amount_out :
      WithdrawSingleTokenTypeExactAmountOut → SwapInstruction
  set_rates : SetRates → SwapInstruction
  initialize_permission : InitializePermission → SwapInstruction
  update_permission : UpdatePermission → SwapInstruction

abbrev pub invalid_instruction : ProgramError
invalid_instruction = from_swap_error SwapError.invalid_instruction

unfoldable pub unpack_bool : List ℕ → Res (Bool × List ℕ)
unpack_bool [] = err invalid_instruction
unpack_bool (byte ∷ rest) =
    if byte == 0
    then ok (false, rest)
    else if byte == 1
    then ok (true, rest)
    else err invalid_instruction

-- `unpack_u64` and `unpack_u128`, on the number of bytes.
unfoldable pub unpack_uint : ℕ → List ℕ → Res (ℕ × List ℕ)
unpack_uint size input =
    if leb size (length input)
    then (do (amount, rest) ← split_at size input; ok (from_le_bytes amount, rest))
    else err invalid_instruction

abbrev pub unpack_u64 : List ℕ → Res (ℕ × List ℕ)
unpack_u64 = unpack_uint 8

abbrev pub unpack_u128 : List ℕ → Res (ℕ × List ℕ)
unpack_u128 = unpack_uint 16

unfoldable pub unpack_swap : List ℕ → Res SwapInstruction
unpack_swap input = do
  (amount_in, rest) ← unpack_u64 input
  (minimum_amount_out, rest') ← unpack_u64 rest
  ok (swap (record { amount_in = amount_in; minimum_amount_out = minimum_amount_out }))

unfoldable pub unpack_deposit_all : List ℕ → Res SwapInstruction
unpack_deposit_all input = do
  (pool, r1) ← unpack_u64 input
  (a, r2) ← unpack_u64 r1
  (b, r3) ← unpack_u64 r2
  ok (
      deposit_all_token_types (record {
        pool_token_amount = pool;
        maximum_token_a_amount = a;
        maximum_token_b_amount = b;
      }))

unfoldable pub unpack_withdraw_all : List ℕ → Res SwapInstruction
unpack_withdraw_all input = do
  (pool, r1) ← unpack_u64 input
  (a, r2) ← unpack_u64 r1
  (b, r3) ← unpack_u64 r2
  ok (
      withdraw_all_token_types (record {
        pool_token_amount = pool;
        minimum_token_a_amount = a;
        minimum_token_b_amount = b;
      }))

unfoldable pub unpack_deposit_single : List ℕ → Res SwapInstruction
unpack_deposit_single input = do
  (source, r1) ← unpack_u64 input
  (minimum, r2) ← unpack_u64 r1
  ok (
      deposit_single_token_type_exact_amount_in
        (record { source_token_amount = source; minimum_pool_token_amount = minimum }))

unfoldable pub unpack_withdraw_single : List ℕ → Res SwapInstruction
unpack_withdraw_single input = do
  (destination, r1) ← unpack_u64 input
  (maximum, r2) ← unpack_u64 r1
  ok (
      withdraw_single_token_type_exact_amount_out
        (record { destination_token_amount = destination; maximum_pool_token_amount = maximum }))

unfoldable pub unpack_set_rates : List ℕ → Res SwapInstruction
unpack_set_rates input = do
  (ssr, r1) ← unpack_u128 input
  (rho, r2) ← unpack_u128 r1
  (chi, r3) ← unpack_u128 r2
  ok (set_rates (record { ssr = ssr; rho = rho; chi = chi }))

-- `split_at(32)` panics on a shorter slice.
unfoldable pub unpack_initialize_permission : List ℕ → Res SwapInstruction
unpack_initialize_permission input = do
  (permission_authority, r1) ← split_at 32 input
  (is_super_admin, r2) ← unpack_bool r1
  (can_update_parameters, r3) ← unpack_bool r2
  ok (
      initialize_permission (record {
        permission_authority = from_le_bytes permission_authority;
        is_super_admin = is_super_admin;
        can_update_parameters = can_update_parameters;
      }))

unfoldable pub unpack_update_permission : List ℕ → Res SwapInstruction
unpack_update_permission input = do
  (is_super_admin, r1) ← unpack_bool input
  (can_update_parameters, r2) ← unpack_bool r1
  ok (
      update_permission
        (record { is_super_admin = is_super_admin; can_update_parameters = can_update_parameters }))

module _ (rt : Runtime) where
  unfoldable pub unpack_initialize : List ℕ → Res SwapInstruction
  unpack_initialize input =
      if leb 64 (length input)
      then (do
        (fees_bytes, rest) ← split_at 64 input
        rt.check_len 64 (length fees_bytes)
        fees ← Fees.unpack_from_slice fees_bytes
        rt.check_len 65 (length rest)
        swap_curve ← Encoding.unpack_from_slice rest
        ok (initialize (record { fees = fees; swap_curve = swap_curve })))
      else err invalid_instruction

  unfoldable pub unpack : List ℕ → Res SwapInstruction
  unpack [] = err invalid_instruction
  unpack (tag ∷ rest) =
      if tag == 0
      then unpack_initialize rest
      else if tag == 1
      then unpack_swap rest
      else if tag == 2
      then unpack_deposit_all rest
      else if tag == 3
      then unpack_withdraw_all rest
      else if tag == 4
      then unpack_deposit_single rest
      else if tag == 5
      then unpack_withdraw_single rest
      else if tag == 6
      then unpack_set_rates rest
      else if tag == 7
      then unpack_initialize_permission rest
      else if tag == 8
      then unpack_update_permission rest
      else err invalid_instruction

-- `[0u8; n]`
unfoldable pub zeros : ℕ → List ℕ
zeros zero = []
zeros (suc n) = 0 ∷ zeros n

-- `[bool as u8, bool as u8]`
abbrev pub flags : Bool → Bool → List ℕ
flags is_super_admin can_update_parameters =
    bool_byte is_super_admin ∷ bool_byte can_update_parameters ∷ []

unfoldable pub pack : SwapInstruction → Res (List ℕ)
pack (initialize i) = do
  fees_slice ← Fees.pack_into_slice i.fees (zeros 64)
  swap_curve_slice ← Encoding.pack_into_slice i.swap_curve (zeros 65)
  ok (0 ∷ (fees_slice ++ swap_curve_slice))
pack (swap i) = ok (1 ∷ (to_le_bytes 8 i.amount_in ++ to_le_bytes 8 i.minimum_amount_out))
pack (deposit_all_token_types i) = ok (
    2
    ∷ (to_le_bytes 8 i.pool_token_amount
        ++ (to_le_bytes 8 i.maximum_token_a_amount ++ to_le_bytes 8 i.maximum_token_b_amount)))
pack (withdraw_all_token_types i) = ok (
    3
    ∷ (to_le_bytes 8 i.pool_token_amount
        ++ (to_le_bytes 8 i.minimum_token_a_amount ++ to_le_bytes 8 i.minimum_token_b_amount)))
pack (deposit_single_token_type_exact_amount_in i) =
    ok (4 ∷ (to_le_bytes 8 i.source_token_amount ++ to_le_bytes 8 i.minimum_pool_token_amount))
pack (withdraw_single_token_type_exact_amount_out i) =
    ok (5 ∷ (to_le_bytes 8 i.destination_token_amount ++ to_le_bytes 8 i.maximum_pool_token_amount))
pack (set_rates i) =
    ok (6 ∷ (to_le_bytes 16 i.ssr ++ (to_le_bytes 16 i.rho ++ to_le_bytes 16 i.chi)))
pack (initialize_permission i) =
    ok (
      7 ∷ (to_le_bytes 32 i.permission_authority ++ flags i.is_super_admin i.can_update_parameters))
pack (update_permission i) = ok (8 ∷ flags i.is_super_admin i.can_update_parameters)
