-- ===== src/Processor/DepositAll/Checks.antt =====
-- What a deposit of both tokens that is settled has passed (program/src/processor.rs).
use solana_psm.Common.{
  ℕ, ◌≤◌, ◌<◌, ◌≡◌, sym, ◌∙◌, ◌⊎◌, ok, List, some, true, false, not, ◌&&◌, ◌||◌, ◌==◌, ltb, arith,
}
use solana_psm.Math.{SplMath}
use solana_psm.Curve.Calculator.{TradingTokenResult, ceiling}
use solana_psm.Curve.Base.{allows_deposits, pool_tokens_to_trading_tokens}
use solana_psm.Runtime.{Pubkey, Runtime, World, AccountInfo, TokenAccount, Mint}
use solana_psm.Runtime.Action.{
  fail_if-eq-ok, lift-eq-ok, lift-eq-ok_last, pure-eq-ok, >>=-eq-ok_same, >>=-of_ok,
}
use solana_psm.State.{SwapV1, unpack}
use solana_psm.Processor.Tokens.{to_u64, unpack_token_account, unpack_mint}
use solana_psm.Processor.Tokens.Inversion.{some_or-eq-ok, to_u64-eq-ok}
use solana_psm.Processor.Accounts.{Matches, check_accounts, check_accounts-Matches}
use solana_psm.Processor.DepositAll.{
  DepositAccounts, DepositQuote, pool_accounts, is_constant_product, read_deposit_accounts,
  check_deposit, price_of_deposit, quote_deposit, settle_deposit, process_deposit_all_token_types,
}

-- The pool that a deposit is checked against.
pub record Pool (rt : Runtime) (program : Pubkey) (acc : DepositAccounts) (w : World) (s : SwapV1)
    : Type 0 where
  pub stored : unpack rt (w acc.swap_info.key).bytes ≡ ok s
  pub allowed : allows_deposits s.swap_curve.calculator ≡ true
  pub accounts : Matches rt s program (pool_accounts acc) w

-- What the curve was asked, and what it answered.
pub record Price (m : SplMath) (rt : Runtime) (pool_tokens : ℕ) (acc : DepositAccounts) (w : World)
    (s : SwapV1) (results : TradingTokenResult) : Type 0 where
  pub token_a : TokenAccount
  pub token_b : TokenAccount
  pub mint : Mint
  pub token_a_read :
      unpack_token_account rt acc.token_a_info (some acc.token_a_mint_info.key) w ≡ ok token_a
  pub token_b_read :
      unpack_token_account rt acc.token_b_info (some acc.token_b_mint_info.key) w ≡ ok token_b
  pub mint_read : unpack_mint rt acc.pool_mint_info w ≡ ok mint
  pub priced :
      pool_tokens_to_trading_tokens m s.swap_curve.calculator pool_tokens mint.supply token_a.amount
        token_b.amount ceiling
      ≡ ok results

-- The amounts that a deposit moves, for a result of the curve.
pub record IsQuote (pool_tokens maximum_a maximum_b : ℕ) (s : SwapV1) (results : TradingTokenResult)
    (q : DepositQuote) : Type 0 where
  pub taken_a : q.token_a_amount ≡ results.token_a_amount
  pub taken_b : q.token_b_amount ≡ results.token_b_amount
  pub given : q.pool_token_amount ≡ pool_tokens
  pub slippage_a : q.token_a_amount ≤ maximum_a
  pub slippage_b : q.token_b_amount ≤ maximum_b
  pub something :
      (is_constant_product s ≡ false) ⊎ ((0 < q.token_a_amount) × (0 < q.token_b_amount))

module _ (m : SplMath) (rt : Runtime) where
  pub check_deposit-Pool :
      (program : Pubkey) (acc : DepositAccounts) (w : World) (s : SwapV1) (w' : World)
      → check_deposit m rt program acc w ≡ ok (s, w')
      → (w' ≡ w) × Pool rt program acc w s
  unfolding check_deposit
  check_deposit-Pool program acc w s w' h =
      let (s', stored, r1) = lift-eq-ok (unpack rt (w acc.swap_info.key).bytes) _ w h in
      let (allowed, r2) = fail_if-eq-ok (not (allows_deposits s'.swap_curve.calculator)) _ _ w r1 in
      let (_, checked, r3) =
        >>=-eq-ok_same (check_accounts rt s' program (pool_accounts acc)) _ w
          (λ a v e. (check_accounts-Matches rt s' program (pool_accounts acc) w a v e).0) r2 in
      let (same, after) = pure-eq-ok s' s w w' r3 in
      let pool : Pool rt program acc w s' = record {
        stored = stored;
        allowed = ground (arith, allowed);
        accounts = (check_accounts-Matches rt s' program (pool_accounts acc) w tt w checked).1;
      } in
      (after, rw (← same) pool)

  pub price_of_deposit-Price :
      (pool_tokens : ℕ) (acc : DepositAccounts) (s : SwapV1) (w : World)
      (results : TradingTokenResult) (w' : World)
      → price_of_deposit m rt pool_tokens acc s w ≡ ok (results, w')
      → (w' ≡ w) × Price m rt pool_tokens acc w s results
  unfolding price_of_deposit
  price_of_deposit-Price pool_tokens acc s w results w' h =
      let (token_a, token_a_read, r1) =
        lift-eq-ok (unpack_token_account rt acc.token_a_info (some acc.token_a_mint_info.key) w) _ w
          h in
      let (token_b, token_b_read, r2) =
        lift-eq-ok (unpack_token_account rt acc.token_b_info (some acc.token_b_mint_info.key) w) _ w
          r1 in
      let (mint, mint_read, r3) = lift-eq-ok (unpack_mint rt acc.pool_mint_info w) _ w r2 in
      let (priced, after) = lift-eq-ok_last _ results w w' r3 in
      (
        after,
        record {
          token_a = token_a;
          token_b = token_b;
          mint = mint;
          token_a_read = token_a_read;
          token_b_read = token_b_read;
          mint_read = mint_read;
          priced = some_or-eq-ok _ _ priced;
        },
      )

  pub quote_deposit-IsQuote :
      (pool_tokens maximum_a maximum_b : ℕ) (s : SwapV1) (results : TradingTokenResult) (w : World)
      (q : DepositQuote) (w' : World)
      → quote_deposit m rt pool_tokens maximum_a maximum_b s results w ≡ ok (q, w')
      → (w' ≡ w) × IsQuote pool_tokens maximum_a maximum_b s results q
  unfolding quote_deposit
  quote_deposit-IsQuote pool_tokens maximum_a maximum_b s results w q w' h =
      let (a, a_fits, r1) = lift-eq-ok (to_u64 results.token_a_amount) _ w h in
      let (slippage_a, r2) = fail_if-eq-ok (ltb maximum_a a) _ _ w r1 in
      let (b, b_fits, r3) = lift-eq-ok (to_u64 results.token_b_amount) _ w r2 in
      let (slippage_b, r4) = fail_if-eq-ok (ltb maximum_b b) _ _ w r3 in
      let (something, r5) = fail_if-eq-ok (is_constant_product s && (a == 0 || b == 0)) _ _ w r4 in
      let (given, given_fits, r6) = lift-eq-ok (to_u64 pool_tokens) _ w r5 in
      let (same, after) = pure-eq-ok _ q w w' r6 in
      let is_quote : IsQuote pool_tokens maximum_a maximum_b s results
          (record { token_a_amount = a; token_b_amount = b; pool_token_amount = given }) =
        record {
          taken_a = to_u64-eq-ok results.token_a_amount a a_fits;
          taken_b = to_u64-eq-ok results.token_b_amount b b_fits;
          given = to_u64-eq-ok pool_tokens given given_fits;
          slippage_a = ground (arith, slippage_a);
          slippage_b = ground (arith, slippage_b);
          something = ground (arith, something);
        } in
      (after, rw (← same) is_quote)

  -- A deposit of both tokens that succeeds ran on a stored pool whose curve allows deposits, with
  -- the pool's own accounts; the curve priced the pool tokens by the reserves and the supply; what is
  -- moved is what the curve answered, each amount within the user's maximum, against exactly the
  -- pool tokens asked for, and on a constant product curve neither amount is zero; and the tokens
  -- are moved after all this.
  pub process_deposit_all_token_types-Price :
      (program : Pubkey) (pool_tokens maximum_a maximum_b : ℕ) (accounts : List AccountInfo)
      (w w' : World) (acc : DepositAccounts)
      → read_deposit_accounts accounts w ≡ ok (acc, w)
      → process_deposit_all_token_types m rt program pool_tokens maximum_a maximum_b accounts w
        ≡ ok (tt, w')
      → (s : SwapV1) × (results : TradingTokenResult) × (q : DepositQuote) × Pool rt program acc w s
        × Price m rt pool_tokens acc w s results
        × IsQuote pool_tokens maximum_a maximum_b s results q
        × (settle_deposit m rt acc s q w ≡ ok (tt, w'))
  unfolding process_deposit_all_token_types
  process_deposit_all_token_types-Price program pool_tokens maximum_a maximum_b accounts w w' acc
        read h =
      let (s, checked, r1) =
        >>=-eq-ok_same (check_deposit m rt program acc) _ w
          (λ a v e. (check_deposit-Pool program acc w a v e).0)
          (sym (>>=-of_ok (read_deposit_accounts accounts) _ w acc w read) ∙ h) in
      let (results, priced, r2) =
        >>=-eq-ok_same (price_of_deposit m rt pool_tokens acc s) _ w
          (λ a v e. (price_of_deposit-Price pool_tokens acc s w a v e).0) r1 in
      let (q, quoted, r3) =
        >>=-eq-ok_same (quote_deposit m rt pool_tokens maximum_a maximum_b s results) _ w
          (λ a v e. (quote_deposit-IsQuote pool_tokens maximum_a maximum_b s results w a v e).0)
          r2 in
      (
        s,
        results,
        q,
        (check_deposit-Pool program acc w s w checked).1,
        (price_of_deposit-Price pool_tokens acc s w results w priced).1,
        (quote_deposit-IsQuote pool_tokens maximum_a maximum_b s results w q w quoted).1,
        r3,
      )
