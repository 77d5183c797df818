-- ===== src/Permission.antt =====
-- Permissions (program/src/permission.rs): who may update a curve, and who may grant that.
pub mod RoundTrip
pub mod Account
pub mod Handlers
use solana_psm.Common.{
  ℕ, Bool, true, false, not, List, ◌++◌, Outcome, ok, err, ◌>>=◌, ◌>>◌, fail_if, ◌==◌,
  if◌then◌else◌,
}
use solana_psm.Common.Bytes.{length, to_le_bytes, from_le_bytes, split_at, write_front}
use solana_psm.Error.{SwapError, ProgramError, Res, from_swap_error}
use solana_psm.Runtime.{Pubkey, Runtime}
use solana_psm.State.{bool_byte}

pub record Permission : Type 0 where
  pub is_initialized : Bool
  pub swap : Pubkey
  pub authority : Pubkey
  pub is_super_admin : Bool
  pub can_update_parameters : Bool

abbrev pub permission_len : ℕ
permission_len = 67

unfoldable pub to_bytes : Permission → List ℕ
to_bytes p =
    to_le_bytes 1 (bool_byte p.is_initialized)
    ++ (to_le_bytes 32 p.swap
        ++ (to_le_bytes 32 p.authority
            ++ (to_le_bytes 1 (bool_byte p.is_super_admin)
                ++ to_le_bytes 1 (bool_byte p.can_update_parameters))))

unfoldable pub pack_into_slice : Permission → List ℕ → Res (List ℕ)
pack_into_slice p output = write_front (to_bytes p) output

-- `b[0] != 0`
abbrev pub non_zero : List ℕ → Bool
non_zero bs = not (from_le_bytes bs == 0)

unfoldable pub unpack_from_slice : List ℕ → Res Permission
unpack_from_slice input = do
  (is_initialized, r1) ← split_at 1 input
  (swap, r2) ← split_at 32 r1
  (authority, r3) ← split_at 32 r2
  (is_super_admin, r4) ← split_at 1 r3
  (can_update_parameters, rest) ← split_at 1 r4
  ok (record {
    is_initialized = non_zero is_initialized;
    swap = from_le_bytes swap;
    authority = from_le_bytes authority;
    is_super_admin = non_zero is_super_admin;
    can_update_parameters = non_zero can_update_parameters;
  })

unfoldable pub validate_update_params_permission : Permission → Res (Unit {0})
validate_update_params_permission p =
    fail_if (not p.can_update_parameters) (from_swap_error SwapError.invalid_update_permission)

unfoldable pub validate_super_admin_permission : Permission → Res (Unit {0})
validate_super_admin_permission p =
    fail_if (not p.is_super_admin) (from_swap_error SwapError.invalid_update_permission)

-- The trait methods `Pack::pack`, `Pack::unpack_unchecked` and `Pack::unpack` at this type.
module _ (rt : Runtime) where
  unfoldable pub pack : Permission → List ℕ → Res (List ℕ)
  pack p output = do rt.check_len permission_len (length output); pack_into_slice p output

  unfoldable pub unpack_unchecked : List ℕ → Res Permission
  unpack_unchecked input = do rt.check_len permission_len (length input); unpack_from_slice input

  unfoldable pub unpack : List ℕ → Res Permission
  unpack input = do p ← unpack_unchecked input; rt.check_initialized p.is_initialized; ok p
