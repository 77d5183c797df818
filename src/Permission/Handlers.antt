-- ===== src/Permission/Handlers.antt =====
-- The handlers of the permission instructions (program/src/permission.rs).
pub mod Authority
pub mod Creation
use solana_psm.Common.{ℕ, Bool, true, false, not, List, [], ◌∷◌, ok, ◌==◌, if◌then◌else◌}
use solana_psm.Error.{SwapError, ProgramError, Res, from_swap_error}
use solana_psm.Runtime.{Pubkey, Runtime, World, AccountInfo}
use solana_psm.Runtime.Action.{
  Action, ◌>>=◌, ◌>>◌, pure, lift, gets, fail_if, next, owner_of, data_of, write_data,
}
use solana_psm.Permission.{Permission, pack, unpack, validate_super_admin_permission}
use solana_psm.Permission.Account.{unpack_permission, create_permission_account}

module _ (rt : Runtime) where
  unfoldable pub process_initialize_permission :
      Pubkey → List AccountInfo → Pubkey → Bool → Bool → Action (Unit {0})
  process_initialize_permission program_id accounts permission_authority is_super_admin
        can_update_parameters =
      do
        (swap_info, r1) ← next accounts
        (permission_info, r2) ← next r1
        (new_permission_info, r3) ← next r2
        (signer_info, r4) ← next r3
        (payer_info, r5) ← next r4
        (system_program_info, r6) ← next r5
        swap_owner ← owner_of swap_info
        fail_if (not (swap_owner == program_id)) ProgramError.illegal_owner
        fail_if (not signer_info.is_signer) ProgramError.missing_required_signature
        permission ← unpack_permission rt permission_info swap_info signer_info program_id
        lift (validate_super_admin_permission permission)
        create_permission_account rt program_id payer_info new_permission_info system_program_info
            swap_info.key permission_authority
        bytes ← data_of new_permission_info
        bytes' ← lift (
            pack rt
              (record {
                is_initialized = true;
                swap = swap_info.key;
                authority = permission_authority;
                is_super_admin = is_super_admin;
                can_update_parameters = can_update_parameters;
              })
              bytes)
        write_data new_permission_info bytes'

  unfoldable pub process_update_permission :
      Pubkey → List AccountInfo → Bool → Bool → Action (Unit {0})
  process_update_permission program_id accounts is_super_admin can_update_parameters = do
    (swap_info, r1) ← next accounts
    (permission_info, r2) ← next r1
    (update_permission_info, r3) ← next r2
    (signer_info, r4) ← next r3
    swap_owner ← owner_of swap_info
    fail_if (not (swap_owner == program_id)) ProgramError.illegal_owner
    fail_if (not signer_info.is_signer) ProgramError.missing_required_signature
    update_owner ← owner_of update_permission_info
    fail_if (not (update_owner == program_id)) ProgramError.illegal_owner
    permission ← unpack_permission rt permission_info swap_info signer_info program_id
    lift (validate_super_admin_permission permission)
    bytes ← data_of update_permission_info
    update_permission ← lift (unpack rt bytes)
    fail_if (not (update_permission.swap == swap_info.key))
        (from_swap_error SwapError.invalid_update_permission)
    bytes' ← lift (
        pack rt
          (record {
            is_initialized = update_permission.is_initialized;
            swap = update_permission.swap;
            authority = update_permission.authority;
            is_super_admin = is_super_admin;
            can_update_parameters = can_update_parameters;
          })
          bytes)
    write_data update_permission_info bytes'
