-- ===== src/Permission/Account.antt =====
-- Reading a permission account and creating one (program/src/permission.rs).
use solana_psm.Common.{ℕ, ◌-◌, max, not, List, [], ◌∷◌, ◌==◌, ltb, if◌then◌else◌}
use solana_psm.Common.Bytes.{to_le_bytes}
use solana_psm.Error.{SwapError, ProgramError, from_swap_error}
use solana_psm.Runtime.{Pubkey, Runtime, AccountInfo, create_account, transfer, allocate, assign}
use solana_psm.Runtime.Action.{
  Action, ◌>>=◌, ◌>>◌, pure, lift, gets, fail_if, owner_of, data_of, change,
}
use solana_psm.Permission.{Permission, permission_len, unpack, unpack_unchecked}

-- b"permission"
abbrev pub permission_seed : List ℕ
permission_seed = b'p' ∷ b'e' ∷ b'r' ∷ b'm' ∷ b'i' ∷ b's' ∷ b's' ∷ b'i' ∷ b'o' ∷ b'n' ∷ []

abbrev update_refused : ProgramError
update_refused = from_swap_error SwapError.invalid_update_permission

module _ (rt : Runtime) where
  unfoldable pub derive_permission_pubkey_and_bump : Pubkey → Pubkey → Pubkey × ℕ
  derive_permission_pubkey_and_bump swap authority =
      rt.find_program_address
        (permission_seed ∷ to_le_bytes 32 swap ∷ to_le_bytes 32 authority ∷ []) rt.program_id

  unfoldable pub unpack_permission :
      AccountInfo → AccountInfo → AccountInfo → Pubkey → Action Permission
  unpack_permission permission_info swap_info signer_info program_id = do
    owner ← owner_of permission_info
    fail_if (not (owner == program_id)) ProgramError.illegal_owner
    fail_if
        (not (
          (derive_permission_pubkey_and_bump swap_info.key signer_info.key).0
          == permission_info.key))
        update_refused
    bytes ← data_of permission_info
    permission ← lift (unpack rt bytes)
    fail_if (not (permission.authority == signer_info.key)) update_refused
    fail_if (not (permission.swap == swap_info.key)) update_refused
    pure permission

  -- The account is funded up to its rent, given its space and handed to the program.
  unfoldable pub adopt_account :
      Pubkey → Pubkey → AccountInfo → ℕ → List Pubkey → List (List ℕ) → Action (Unit {0})
  adopt_account payer permission_address permission_account required keys seeds = do
    (if ltb 0 required
        then change
            (rt.invoke_signed (transfer payer permission_address required) (payer ∷ keys) [])
        else pure tt)
    change (rt.invoke_signed (allocate permission_address permission_len) keys seeds)
    change (rt.invoke_signed (assign permission_address rt.program_id) keys seeds)

  -- An account of the program must not hold an initialized permission.
  unfoldable pub refuse_initialized : Pubkey → AccountInfo → Action (Unit {0})
  refuse_initialized program_id permission_account = do
    owner ← owner_of permission_account
    bytes ← data_of permission_account
    (if owner == program_id
        then (do
          existing_permission ← lift (unpack_unchecked rt bytes)
          fail_if existing_permission.is_initialized ProgramError.account_already_initialized)
        else pure tt)

  unfoldable pub create_permission_account :
      Pubkey → AccountInfo → AccountInfo → AccountInfo → Pubkey → Pubkey → Action (Unit {0})
  create_permission_account program_id payer permission_account system_program swap authority = do
    let derived = derive_permission_pubkey_and_bump swap authority
    fail_if (not (permission_account.key == derived.0))
        (from_swap_error SwapError.invalid_permission_address)
    fail_if (not (system_program.key == rt.system_program_id)) ProgramError.incorrect_program_id
    refuse_initialized program_id permission_account
    minimum_balance ← lift rt.rent
    let lamports = minimum_balance permission_len
    current_lamports ← gets (λ w. (w permission_account.key).lamports)
    let seeds =
        permission_seed
        ∷ to_le_bytes 32 swap
        ∷ to_le_bytes 32 authority
        ∷ to_le_bytes 1 derived.1
        ∷ []
    let keys = permission_account.key ∷ system_program.key ∷ []
    (if current_lamports == 0
        then change (
            rt.invoke_signed
              (create_account payer.key derived.0 lamports permission_len rt.program_id)
              (payer.key ∷ keys) seeds)
        else adopt_account payer.key derived.0 permission_account
            (max lamports 1 - current_lamports) keys seeds)
