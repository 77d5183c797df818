-- ===== src/Processor/InitializeChecks.antt =====
-- The accounts of `Initialize` and their checks (program/src/processor.rs).
pub mod Passed
pub mod Terms
use solana_psm.Common.{
  ℕ, Bool, true, false, not, ◌||◌, Option, none, some, List, [], ◌∷◌, ok, err, panic, ◌==◌,
  if◌then◌else◌,
}
use solana_psm.Common
use solana_psm.Common.Bytes.{to_le_bytes}
use solana_psm.Error.{SwapError, ProgramError, Res, from_swap_error, into}
use solana_psm.Math.{SplMath}
use solana_psm.Fees
use solana_psm.Fees.{Fees}
use solana_psm.Curve.Base.{SwapCurve, validate_supply, validate as validate_calculator}
use solana_psm.Constraints.{
  SwapConstraints, ExtensionTypes, validate_curve, validate_fees, validate_mint_extensions,
}
use solana_psm.Runtime.{Pubkey, Runtime, World, AccountInfo, TokenAccount, Mint, MintState}
use solana_psm.Runtime.Action.{
  Action, ◌>>=◌, ◌>>◌, pure, lift, read, fail_if, next, owner_of, data_of,
}
use solana_psm.State.{is_initialized}
use solana_psm.Processor.Tokens.{unpack_token_account, mint_of, timestamp_of}

-- The accounts of the instruction, in order; `rest` has those of the first permission.
pub record InitializeAccounts : Type 0 where
  pub swap_info : AccountInfo
  pub authority_info : AccountInfo
  pub token_a_info : AccountInfo
  pub token_b_info : AccountInfo
  pub pool_mint_info : AccountInfo
  pub token_a_mint_info : AccountInfo
  pub token_b_mint_info : AccountInfo
  pub fee_account_info : AccountInfo
  pub destination_info : AccountInfo
  pub pool_token_program_info : AccountInfo
  pub rest : List AccountInfo

unfoldable pub read_initialize_accounts : List AccountInfo → Action InitializeAccounts
read_initialize_accounts accounts = do
  (swap_info, r1) ← next accounts
  (authority_info, r2) ← next r1
  (token_a_info, r3) ← next r2
  (token_b_info, r4) ← next r3
  (pool_mint_info, r5) ← next r4
  (token_a_mint_info, r6) ← next r5
  (token_b_mint_info, r7) ← next r6
  (fee_account_info, r8) ← next r7
  (destination_info, r9) ← next r8
  (pool_token_program_info, r10) ← next r9
  pure (record {
    swap_info = swap_info;
    authority_info = authority_info;
    token_a_info = token_a_info;
    token_b_info = token_b_info;
    pool_mint_info = pool_mint_info;
    token_a_mint_info = token_a_mint_info;
    token_b_mint_info = token_b_mint_info;
    fee_account_info = fee_account_info;
    destination_info = destination_info;
    pool_token_program_info = pool_token_program_info;
    rest = r10;
  })

-- What the accounts hold.
pub record Found : Type 0 where
  pub bump_seed : ℕ
  pub token_a : TokenAccount
  pub token_b : TokenAccount
  pub fee_account : TokenAccount
  pub destination : TokenAccount
  pub pool_mint : Mint
  pub token_a_mint : MintState
  pub token_b_mint : MintState

-- b"init_destination"
abbrev pub destination_seed : List ℕ
destination_seed =
    b'i' ∷ b'n' ∷ b'i' ∷ b't' ∷ b'_' ∷ b'd' ∷ b'e' ∷ b's' ∷ b't' ∷ b'i' ∷ b'n' ∷ b'a' ∷ b't' ∷ b'i'
    ∷ b'o' ∷ b'n' ∷ []

-- `is_some()`
abbrev pub is_some : {A : Type 0} → Option A → Bool
is_some none = false
is_some (some a) = true

-- `COption::Some(key) != authority`
abbrev pub is_not : Pubkey → Option Pubkey → Bool
is_not key none = true
is_not key (some authority) = not (key == authority)

-- `owner_key.unwrap().parse()`
unfoldable pub parse_owner_key : Option (Option Pubkey) → Res Pubkey
parse_owner_key none = panic
parse_owner_key (some none) = err (from_swap_error SwapError.invalid_owner)
parse_owner_key (some (some key)) = ok key

-- Where there are constraints, the fee account is the owner's, and the curve and the fees are valid.
unfoldable pub check_constraints :
    Option SwapConstraints → Fees → SwapCurve → TokenAccount → Action (Unit {0})
check_constraints none fees swap_curve fee_account = pure tt
check_constraints (some constraints) fees swap_curve fee_account = do
  owner_key ← lift (parse_owner_key constraints.owner_key)
  fail_if (not (fee_account.owner == owner_key)) (from_swap_error SwapError.invalid_owner)
  lift (validate_curve constraints swap_curve)
  lift (validate_fees constraints fees)

-- The checks of what the accounts hold.
unfoldable pub check_owners : Pubkey → Pubkey → InitializeAccounts → Found → Action (Unit {0})
check_owners program_id destination_owner acc found = do
  fail_if (not (acc.authority_info.key == found.token_a.owner))
      (from_swap_error SwapError.invalid_owner)
  fail_if (not (acc.authority_info.key == found.token_b.owner))
      (from_swap_error SwapError.invalid_owner)
  swap_owner ← owner_of acc.swap_info
  fail_if (not (swap_owner == program_id)) ProgramError.invalid_account_owner
  fail_if (not (destination_owner == found.destination.owner))
      (from_swap_error SwapError.invalid_output_owner)
  fail_if (acc.authority_info.key == found.fee_account.owner)
      (from_swap_error SwapError.invalid_output_owner)
  fail_if (is_not acc.authority_info.key found.pool_mint.mint_authority)
      (from_swap_error SwapError.invalid_owner)

unfoldable pub check_tokens : SwapCurve → InitializeAccounts → Found → Action (Unit {0})
check_tokens swap_curve acc found = do
  fail_if (found.token_a.mint == found.token_b.mint) (from_swap_error SwapError.repeated_mint)
  lift (into (validate_supply swap_curve.calculator found.token_a.amount found.token_b.amount))
  fail_if (is_some found.token_a.delegate) (from_swap_error SwapError.invalid_delegate)
  fail_if (is_some found.token_b.delegate) (from_swap_error SwapError.invalid_delegate)
  fail_if (is_some found.token_a.close_authority)
      (from_swap_error SwapError.invalid_close_authority)
  fail_if (is_some found.token_b.close_authority)
      (from_swap_error SwapError.invalid_close_authority)
  fail_if (not (found.pool_mint.supply == 0)) (from_swap_error SwapError.invalid_supply)
  fail_if (not (acc.pool_mint_info.key == found.fee_account.mint))
      (from_swap_error SwapError.incorrect_pool_mint)
  fail_if
      (found.token_a.mint == acc.pool_mint_info.key || found.token_b.mint == acc.pool_mint_info.key)
      (from_swap_error SwapError.incorrect_pool_mint)
  fail_if (is_some found.pool_mint.freeze_authority)
      (from_swap_error SwapError.invalid_freeze_authority)

module _ (rt : Runtime) (types : ExtensionTypes) where
  -- The mint of an account whose extensions are allowed.
  unfoldable pub checked_mint : Bool → AccountInfo → World → Res MintState
  checked_mint is_pool_mint info w =
      Common.◌>>=◌ (mint_of rt info w)
        (λ state. Common.◌>>=◌ (validate_mint_extensions types state is_pool_mint) (λ _. ok state))

  -- The new account, its authority and the accounts that the pool will use.
  unfoldable pub find_accounts : Pubkey → InitializeAccounts → Action Found
  find_accounts program_id acc = do
    swap_data ← data_of acc.swap_info
    fail_if (is_initialized swap_data) (from_swap_error SwapError.already_in_use)
    let found = rt.find_program_address (to_le_bytes 32 acc.swap_info.key ∷ []) program_id
    fail_if (not (acc.authority_info.key == found.0))
        (from_swap_error SwapError.invalid_program_address)
    token_a ← read (unpack_token_account rt acc.token_a_info (some acc.token_a_mint_info.key))
    token_b ← read (unpack_token_account rt acc.token_b_info (some acc.token_b_mint_info.key))
    fee_account ← read (unpack_token_account rt acc.fee_account_info (some acc.pool_mint_info.key))
    destination ← read (unpack_token_account rt acc.destination_info (some acc.pool_mint_info.key))
    pool_mint ← read (checked_mint true acc.pool_mint_info)
    token_a_mint ← read (checked_mint false acc.token_a_mint_info)
    token_b_mint ← read (checked_mint false acc.token_b_mint_info)
    pure (record {
      bump_seed = found.1;
      token_a = token_a;
      token_b = token_b;
      fee_account = fee_account;
      destination = destination;
      pool_mint = pool_mint.base;
      token_a_mint = token_a_mint;
      token_b_mint = token_b_mint;
    })

module _ (m : SplMath) (rt : Runtime) where
  -- The fees and the curve.
  unfoldable pub check_terms :
      Option SwapConstraints → Fees → SwapCurve → TokenAccount → Action (Unit {0})
  check_terms constraints fees swap_curve fee_account = do
    check_constraints constraints fees swap_curve fee_account
    lift (into (Fees.validate fees))
    timestamp ← lift (timestamp_of rt swap_curve.curve_type)
    lift (into (validate_calculator m swap_curve.calculator timestamp))

module _ (m : SplMath) (rt : Runtime) (types : ExtensionTypes) where
  -- The checks, none of which changes an account.
  unfoldable pub check_initialize :
      Pubkey → Fees → SwapCurve → Option SwapConstraints → InitializeAccounts → Action Found
  check_initialize program_id fees swap_curve constraints acc = do
    found ← find_accounts rt types program_id acc
    let destination_owner =
        rt.find_program_address (destination_seed ∷ to_le_bytes 32 acc.swap_info.key ∷ [])
          program_id
    check_owners program_id destination_owner.0 acc found
    check_tokens swap_curve acc found
    check_terms m rt constraints fees swap_curve found.fee_account
    pure found
