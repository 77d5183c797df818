-- ===== src/Processor/Accounts.antt =====
-- The checks of the pool's accounts that the deposits and withdrawals share
-- (program/src/processor.rs).
use solana_psm.Common.{◌≡◌, Bool, false, not, Option, none, some, ap, ◌∙◌, ok, ◌==◌, arith}
use solana_psm.Error.{SwapError, ProgramError, from_swap_error}
use solana_psm.Runtime.{Pubkey, Runtime, World, AccountInfo}
use solana_psm.Runtime.Action.{
  Action, ◌>>=◌, ◌>>◌, pure, lift, fail_if, owner_of, fail_if-eq-ok, lift-eq-ok, pure-eq-ok,
}
use solana_psm.State.{SwapV1}
use solana_psm.Processor.Tokens.{authority_id}

-- The accounts that `check_accounts` is called with.
pub record PoolAccounts : Type 0 where
  pub swap_account_info : AccountInfo
  pub authority_info : AccountInfo
  pub token_a_info : AccountInfo
  pub token_b_info : AccountInfo
  pub pool_mint_info : AccountInfo
  pub pool_token_program_info : AccountInfo
  pub user_token_a_info : Option AccountInfo
  pub user_token_b_info : Option AccountInfo
  pub pool_fee_account_info : Option AccountInfo

-- `if let Some(user) = user { if info.key == user.key`
abbrev is_reserve_of : AccountInfo → Option AccountInfo → Bool
is_reserve_of info none = false
is_reserve_of info (some user) = info.key == user.key

-- `if let Some(info) = info { if *info.key != key`
abbrev is_other : Option AccountInfo → Pubkey → Bool
is_other none key = false
is_other (some info) key = not (info.key == key)

module _ (rt : Runtime) where
  unfoldable pub check_accounts : SwapV1 → Pubkey → PoolAccounts → Action (Unit {0})
  check_accounts token_swap program_id acc = do
    swap_owner ← owner_of acc.swap_account_info
    fail_if (not (swap_owner == program_id)) ProgramError.incorrect_program_id
    authority ← lift (authority_id rt program_id acc.swap_account_info.key token_swap.bump_seed)
    fail_if (not (acc.authority_info.key == authority))
        (from_swap_error SwapError.invalid_program_address)
    fail_if (not (acc.token_a_info.key == token_swap.token_a))
        (from_swap_error SwapError.incorrect_swap_account)
    fail_if (not (acc.token_b_info.key == token_swap.token_b))
        (from_swap_error SwapError.incorrect_swap_account)
    fail_if (not (acc.pool_mint_info.key == token_swap.pool_mint))
        (from_swap_error SwapError.incorrect_pool_mint)
    fail_if (not (acc.pool_token_program_info.key == token_swap.token_program_id))
        (from_swap_error SwapError.incorrect_token_program_id)
    fail_if (is_reserve_of acc.token_a_info acc.user_token_a_info)
        (from_swap_error SwapError.invalid_input)
    fail_if (is_reserve_of acc.token_b_info acc.user_token_b_info)
        (from_swap_error SwapError.invalid_input)
    fail_if (is_other acc.pool_fee_account_info token_swap.pool_fee_account)
        (from_swap_error SwapError.incorrect_fee_account)
    pure tt

-- The given accounts are those of the pool, and the user's are not among its reserves.
pub record Matches (rt : Runtime) (s : SwapV1) (program : Pubkey) (acc : PoolAccounts) (w : World)
    : Type 0 where
  pub owned : (w acc.swap_account_info.key).owner ≡ program
  pub authority :
      authority_id rt program acc.swap_account_info.key s.bump_seed ≡ ok acc.authority_info.key
  pub token_a : acc.token_a_info.key ≡ s.token_a
  pub token_b : acc.token_b_info.key ≡ s.token_b
  pub mint : acc.pool_mint_info.key ≡ s.pool_mint
  pub token_program : acc.pool_token_program_info.key ≡ s.token_program_id
  pub apart_a : is_reserve_of acc.token_a_info acc.user_token_a_info ≡ false
  pub apart_b : is_reserve_of acc.token_b_info acc.user_token_b_info ≡ false
  pub fee_account : is_other acc.pool_fee_account_info s.pool_fee_account ≡ false

module _ (rt : Runtime) where
  pub check_accounts-Matches :
      (s : SwapV1) (program : Pubkey) (acc : PoolAccounts) (w : World) (u : Unit {0}) (w' : World)
      → check_accounts rt s program acc w ≡ ok (u, w')
      → (w' ≡ w) × Matches rt s program acc w
  unfolding check_accounts
  check_accounts-Matches s program acc w u w' h =
      let (owned, r1) =
        fail_if-eq-ok (not ((w acc.swap_account_info.key).owner == program)) _ _ w h in
      let (key, authority, r2) =
        lift-eq-ok (authority_id rt program acc.swap_account_info.key s.bump_seed) _ w r1 in
      let (same, r3) = fail_if-eq-ok (not (acc.authority_info.key == key)) _ _ w r2 in
      let (a, r4) = fail_if-eq-ok (not (acc.token_a_info.key == s.token_a)) _ _ w r3 in
      let (b, r5) = fail_if-eq-ok (not (acc.token_b_info.key == s.token_b)) _ _ w r4 in
      let (mint, r6) = fail_if-eq-ok (not (acc.pool_mint_info.key == s.pool_mint)) _ _ w r5 in
      let (program_key, r7) =
        fail_if-eq-ok (not (acc.pool_token_program_info.key == s.token_program_id)) _ _ w r6 in
      let (apart_a, r8) =
        fail_if-eq-ok (is_reserve_of acc.token_a_info acc.user_token_a_info) _ _ w r7 in
      let (apart_b, r9) =
        fail_if-eq-ok (is_reserve_of acc.token_b_info acc.user_token_b_info) _ _ w r8 in
      let (fee, r10) =
        fail_if-eq-ok (is_other acc.pool_fee_account_info s.pool_fee_account) _ _ w r9 in
      let key_same : key ≡ acc.authority_info.key = ground (arith, same) in
      (
        (pure-eq-ok tt u w w' r10).1,
        record {
          owned = ground (arith, owned);
          authority = authority ∙ ap ok key_same;
          token_a = ground (arith, a);
          token_b = ground (arith, b);
          mint = ground (arith, mint);
          token_program = ground (arith, program_key);
          apart_a = apart_a;
          apart_b = apart_b;
          fee_account = fee;
        },
      )
