-- ===== src/Processor/Initialize.antt =====
-- The handler of `Initialize` (program/src/processor.rs).
pub mod Created
pub mod Production
use solana_psm.Common.{ℕ, true, not, Option, List, ◌==◌, if◌then◌else◌}
use solana_psm.Error.{SwapError, from_swap_error}
use solana_psm.Math.{SplMath}
use solana_psm.Fees.{Fees}
use solana_psm.Curve.Base.{SwapCurve, redemption_rate_curve, new_pool_supply}
use solana_psm.Constraints.{SwapConstraints, ExtensionTypes, same_type}
use solana_psm.Runtime.{Pubkey, Runtime, AccountInfo}
use solana_psm.Runtime.Action.{Action, ◌>>=◌, ◌>>◌, pure, lift, fail_if, next, data_of, write_data}
use solana_psm.State.{SwapV1, pack}
use solana_psm.Permission.{Permission}
use solana_psm.Permission
use solana_psm.Permission.Account.{create_permission_account}
use solana_psm.Processor.Tokens.{to_u64}
use solana_psm.Processor.Calls.{token_mint_to}
use solana_psm.Processor.InitializeChecks.{
  InitializeAccounts, Found, read_initialize_accounts, check_initialize,
}

-- The account of the new pool.
abbrev pub new_swap : Fees → SwapCurve → InitializeAccounts → Found → SwapV1
new_swap fees swap_curve acc found = record {
  is_initialized = true;
  bump_seed = found.bump_seed;
  token_program_id = acc.pool_token_program_info.key;
  token_a = acc.token_a_info.key;
  token_b = acc.token_b_info.key;
  pool_mint = acc.pool_mint_info.key;
  token_a_mint = found.token_a.mint;
  token_b_mint = found.token_b.mint;
  pool_fee_account = acc.fee_account_info.key;
  fees = fees;
  swap_curve = swap_curve;
}

-- A permission that may do everything.
abbrev pub first_permission : (swap super_admin : Pubkey) → Permission
first_permission swap super_admin = record {
  is_initialized = true;
  swap = swap;
  authority = super_admin;
  is_super_admin = true;
  can_update_parameters = true;
}

module _ (rt : Runtime) where
  -- The pool tokens that no one can redeem.
  unfoldable pub mint_initial : SwapCurve → InitializeAccounts → ℕ → Action (Unit {0})
  mint_initial swap_curve acc bump_seed = do
    initial_amount ← lift (to_u64 (new_pool_supply swap_curve.calculator))
    token_mint_to rt acc.swap_info.key acc.pool_token_program_info.key acc.pool_mint_info.key
        acc.destination_info.key acc.authority_info.key bump_seed initial_amount

  -- The first permission.
  unfoldable pub grant_first : Pubkey → InitializeAccounts → Found → Action (Unit {0})
  grant_first program_id acc found = do
    fail_if (not (found.token_a_mint.base.decimals == found.token_b_mint.base.decimals))
        (from_swap_error SwapError.mismatched_mint_decimals)
    (permission_info, r1) ← next acc.rest
    (super_admin_info, r2) ← next r1
    (payer_info, r3) ← next r2
    (system_program_info, r4) ← next r3
    create_permission_account rt program_id payer_info permission_info system_program_info
        acc.swap_info.key super_admin_info.key
    bytes ← data_of permission_info
    bytes' ←
        lift (Permission.pack rt (first_permission acc.swap_info.key super_admin_info.key) bytes)
    write_data permission_info bytes'

  unfoldable pub grant_if_redemption_rate :
      Pubkey → SwapCurve → InitializeAccounts → Found → Action (Unit {0})
  grant_if_redemption_rate program_id swap_curve acc found =
      if same_type swap_curve.curve_type redemption_rate_curve
      then grant_first program_id acc found
      else pure tt

  unfoldable pub store_swap : SwapV1 → AccountInfo → Action (Unit {0})
  store_swap s swap_info = do
    bytes ← data_of swap_info
    bytes' ← lift (pack rt s bytes)
    write_data swap_info bytes'

module _ (m : SplMath) (rt : Runtime) (types : ExtensionTypes) where
  unfoldable pub process_initialize :
      Pubkey → Fees → SwapCurve → List AccountInfo → Option SwapConstraints → Action (Unit {0})
  process_initialize program_id fees swap_curve accounts constraints = do
    acc ← read_initialize_accounts accounts
    found ← check_initialize m rt types program_id fees swap_curve constraints acc
    mint_initial rt swap_curve acc found.bump_seed
    grant_if_redemption_rate rt program_id swap_curve acc found
    store_swap rt (new_swap fees swap_curve acc found) acc.swap_info
