-- ===== src/Processor/Tokens.antt =====
-- Token accounts, mints and the address that signs for the pool, as the handlers read them
-- (program/src/processor.rs, program/src/state.rs).
pub mod Inversion
use solana_psm.Common.{
  ℕ, ◌+◌, Bool, true, false, not, ◌||◌, Option, none, some, List, [], ◌∷◌, Outcome, Calc, ok, err,
  panic, ◌>>=◌, ◌>>◌, fail_if, ok_or, ◌==◌, ltb, if◌then◌else◌, u64_mod,
}
use solana_psm.Common.Bytes.{to_le_bytes}
use solana_psm.Error.{SwapError, ProgramError, Res, from_swap_error}
use solana_psm.Curve.Base.{
  CurveType, constant_product, constant_price, offset, redemption_rate_curve,
}
use solana_psm.Runtime.{
  Pubkey, Runtime, World, AccountInfo, TokenAccount, Mint, MintState, AccountState, initialized,
  uninitialized, frozen,
}
use solana_psm.State.{SwapV1}
use solana_psm.RedemptionRateProcessor.{as_u128}

-- `map_err(|_| e)`; a panic stays one.
unfoldable pub map_err : {A : Type 0} → Res A → SwapError → Res A
map_err (ok a) e = ok a
map_err (err _) e = err (from_swap_error e)
map_err panic e = panic

-- `ok_or(e)?` on an `Option` of the arithmetic.
unfoldable pub some_or : {A : Type 0} → Calc A → SwapError → Res A
some_or x e = ok_or x (from_swap_error e)

-- `is_ok()`
unfoldable pub succeeds : {A : Type 0} → Res A → Res Bool
succeeds (ok a) = ok true
succeeds (err e) = ok false
succeeds panic = panic

unfoldable pub to_u64 : ℕ → Res ℕ
to_u64 val = if ltb val u64_mod then ok val else err (from_swap_error SwapError.conversion_failure)

abbrev is_initialized_state : AccountState → Bool
is_initialized_state initialized = true
is_initialized_state uninitialized = false
is_initialized_state frozen = false

-- The seeds with which the pool's address signs.
abbrev pub signer_seeds : Pubkey → ℕ → List (List ℕ)
signer_seeds swap bump_seed = to_le_bytes 32 swap ∷ to_le_bytes 1 bump_seed ∷ []

module _ (rt : Runtime) where
  -- The check of the account's mint, where one is expected.
  abbrev expect_mint : TokenAccount → Option Pubkey → Res TokenAccount
  expect_mint account none = ok account
  expect_mint account (some expected_mint) =
      if account.mint == expected_mint
      then ok account
      else err (from_swap_error SwapError.invalid_account_mint)

  unfoldable pub unpack_token_account : AccountInfo → Option Pubkey → World → Res TokenAccount
  unpack_token_account account_info expected_mint w = do
    map_err (rt.check_spl_token_program_account (w account_info.key).owner)
        SwapError.incorrect_token_program_id
    account ← map_err (rt.unpack_account (w account_info.key).bytes) SwapError.expected_account
    expect_mint account expected_mint

  unfoldable pub unpack_mint_with_extensions : List ℕ → Pubkey → Res MintState
  unpack_mint_with_extensions account_data owner = do
    map_err (rt.check_spl_token_program_account owner) SwapError.incorrect_token_program_id
    map_err (rt.unpack_mint account_data) SwapError.expected_mint

  -- The mint of an account, with its extensions.
  abbrev pub mint_of : AccountInfo → World → Res MintState
  mint_of info w = unpack_mint_with_extensions (w info.key).bytes (w info.key).owner

  unfoldable pub unpack_mint : AccountInfo → World → Res Mint
  unpack_mint account_info w = do state ← mint_of account_info w; ok state.base

  unfoldable pub authority_id : Pubkey → Pubkey → ℕ → Res Pubkey
  authority_id program_id my_info bump_seed =
      elim (rt.create_program_address (signer_seeds my_info bump_seed) program_id) [
        | some address ↦ ok address
        | none ↦ err (from_swap_error SwapError.invalid_program_address)
      ]

  -- The error of `check_pool_fee_info` on an account that cannot be unpacked.
  abbrev fee_account_error : Res TokenAccount → Res TokenAccount
  fee_account_error (err ProgramError.invalid_account_data) =
      err (from_swap_error SwapError.invalid_fee_account)
  fee_account_error (err ProgramError.uninitialized_account) =
      err (from_swap_error SwapError.invalid_fee_account)
  fee_account_error other = other

  -- `SwapV1::check_pool_fee_info`
  unfoldable pub check_pool_fee_info : SwapV1 → AccountInfo → World → Res (Unit {0})
  check_pool_fee_info s pool_fee_info w = do
    token_account ← fee_account_error (rt.unpack_account (w pool_fee_info.key).bytes)
    fail_if
        (not ((w pool_fee_info.key).owner == s.token_program_id)
          || not (is_initialized_state token_account.state)
          || not (token_account.mint == s.pool_mint))
        (from_swap_error SwapError.invalid_fee_account)

  -- The time, where the curve is a redemption rate curve.
  unfoldable pub timestamp_of : CurveType → Res (Option ℕ)
  timestamp_of redemption_rate_curve = do
    timestamp ← rt.unix_timestamp
    ok (some (as_u128 timestamp))
  timestamp_of constant_product = ok none
  timestamp_of constant_price = ok none
  timestamp_of offset = ok none

  -- `SwapV1::get_current_timestamp_opt`
  unfoldable pub get_current_timestamp_opt : SwapV1 → Res (Option ℕ)
  get_current_timestamp_opt s = timestamp_of s.swap_curve.curve_type
