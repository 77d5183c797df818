-- ===== src/Processor/WithdrawAll/Checks.antt =====
-- What a withdrawal of both tokens that is settled has passed (program/src/processor.rs).
use solana_psm.Common.{
  ℕ, ◌+◌, ◌≤◌, ◌<◌, ◌≡◌, sym, ap, ◌∙◌, ◌⊎◌, ok, List, some, false, not, ◌&&◌, ◌==◌, ltb, min,
  checked_sub, checked_sub-eq-ok, arith,
}
use solana_psm.Error.{SwapError}
use solana_psm.Math.{SplMath}
use solana_psm.Curve.Calculator.{floor}
use solana_psm.Curve.Base.{pool_tokens_to_trading_tokens}
use solana_psm.Runtime.{Pubkey, Runtime, World, AccountInfo}
use solana_psm.Runtime.Action.{fail_if-eq-ok, lift-eq-ok, pure-eq-ok, >>=-eq-ok_same, >>=-of_ok}
use solana_psm.State.{SwapV1, unpack}
use solana_psm.Processor.Tokens.{some_or, to_u64, unpack_token_account, unpack_mint}
use solana_psm.Processor.Tokens.Inversion.{some_or-eq-ok, to_u64-eq-ok}
use solana_psm.Processor.WithdrawAll.Fee.{IsWithdrawFee, withdraw_fee_of-IsWithdrawFee}
use solana_psm.Processor.Accounts.{Matches, check_accounts, check_accounts-Matches}
use solana_psm.Processor.DepositAll.{is_constant_product}
use solana_psm.Processor.WithdrawAll.{
  WithdrawAccounts, Reading, WithdrawQuote, pool_accounts, read_withdraw_accounts, withdraw_fee_of,
  check_withdraw, worth_of_withdraw, quote_withdraw, settle_withdraw,
  process_withdraw_all_token_types,
}

-- The pool that a withdrawal is checked against.
pub record Pool (rt : Runtime) (program : Pubkey) (acc : WithdrawAccounts) (w : World) (s : SwapV1)
    : Type 0 where
  pub stored : unpack rt (w acc.swap_info.key).bytes ≡ ok s
  pub accounts : Matches rt s program (pool_accounts acc) w

-- What the accounts hold, and what the curve answered for the pool tokens without the fee.
pub record Worth (m : SplMath) (rt : Runtime) (pool_tokens : ℕ) (acc : WithdrawAccounts) (w : World)
    (s : SwapV1) (r : Reading) : Type 0 where
  pub token_a_read :
      unpack_token_account rt acc.token_a_info (some acc.token_a_mint_info.key) w ≡ ok r.token_a
  pub token_b_read :
      unpack_token_account rt acc.token_b_info (some acc.token_b_mint_info.key) w ≡ ok r.token_b
  pub mint_read : unpack_mint rt acc.pool_mint_info w ≡ ok r.pool_mint
  pub fee :
      IsWithdrawFee rt s acc.pool_fee_account_info acc.source_info pool_tokens w r.withdraw_fee
  pub burnt : r.pool_token_amount + r.withdraw_fee ≡ pool_tokens
  pub priced :
      pool_tokens_to_trading_tokens m s.swap_curve.calculator r.pool_token_amount r.pool_mint.supply
        r.token_a.amount r.token_b.amount floor
      ≡ ok r.results

-- The amounts that a withdrawal moves.
pub record IsQuote (minimum_a minimum_b : ℕ) (s : SwapV1) (r : Reading) (q : WithdrawQuote)
    : Type 0 where
  pub given_a : q.token_a_amount ≡ min r.token_a.amount r.results.token_a_amount
  pub given_b : q.token_b_amount ≡ min r.token_b.amount r.results.token_b_amount
  pub slippage_a : minimum_a ≤ q.token_a_amount
  pub slippage_b : minimum_b ≤ q.token_b_amount
  pub something :
      (is_constant_product s ≡ false)
      ⊎ (((r.token_a.amount ≡ 0) ⊎ (0 < q.token_a_amount))
          × ((r.token_b.amount ≡ 0) ⊎ (0 < q.token_b_amount)))

module _ (m : SplMath) (rt : Runtime) where
  pub check_withdraw-Pool :
      (program : Pubkey) (acc : WithdrawAccounts) (w : World) (s : SwapV1) (w' : World)
      → check_withdraw m rt program acc w ≡ ok (s, w')
      → (w' ≡ w) × Pool rt program acc w s
  unfolding check_withdraw
  check_withdraw-Pool program acc w s w' h =
      let (s', stored, r1) = lift-eq-ok (unpack rt (w acc.swap_info.key).bytes) _ w h in
      let (_, checked, r2) =
        >>=-eq-ok_same (check_accounts rt s' program (pool_accounts acc)) _ w
          (λ a v e. (check_accounts-Matches rt s' program (pool_accounts acc) w a v e).0) r1 in
      let (same, after) = pure-eq-ok s' s w w' r2 in
      let pool : Pool rt program acc w s' = record {
        stored = stored;
        accounts = (check_accounts-Matches rt s' program (pool_accounts acc) w tt w checked).1;
      } in
      (after, rw (← same) pool)

  pub worth_of_withdraw-Worth :
      (pool_tokens : ℕ) (acc : WithdrawAccounts) (s : SwapV1) (w : World) (r : Reading) (w' : World)
      → worth_of_withdraw m rt pool_tokens acc s w ≡ ok (r, w')
      → (w' ≡ w) × Worth m rt pool_tokens acc w s r
  unfolding worth_of_withdraw
  worth_of_withdraw-Worth pool_tokens acc s w r w' h =
      let (token_a, token_a_read, r1) =
        lift-eq-ok (unpack_token_account rt acc.token_a_info (some acc.token_a_mint_info.key) w) _ w
          h in
      let (token_b, token_b_read, r2) =
        lift-eq-ok (unpack_token_account rt acc.token_b_info (some acc.token_b_mint_info.key) w) _ w
          r1 in
      let (mint, mint_read, r3) = lift-eq-ok (unpack_mint rt acc.pool_mint_info w) _ w r2 in
      let (fee, fee_due, r4) =
        >>=-eq-ok_same (withdraw_fee_of rt s acc.pool_fee_account_info acc.source_info pool_tokens)
          _ w
          (λ a v e.
            (withdraw_fee_of-IsWithdrawFee rt s acc.pool_fee_account_info acc.source_info
              pool_tokens w a v e).0)
          r3 in
      let (burnt, left, r5) =
        lift-eq-ok (some_or (checked_sub pool_tokens fee) SwapError.calculation_failure) _ w r4 in
      let (results, priced, r6) =
        lift-eq-ok
          (some_or
            (pool_tokens_to_trading_tokens m s.swap_curve.calculator burnt mint.supply
              token_a.amount token_b.amount floor)
            SwapError.zero_trading_tokens)
          _ w r5 in
      let (same, after) = pure-eq-ok _ r w w' r6 in
      let worth : Worth m rt pool_tokens acc w s (record {
        token_a = token_a;
        token_b = token_b;
        pool_mint = mint;
        withdraw_fee = fee;
        pool_token_amount = burnt;
        results = results;
      }) =
        record {
          token_a_read = token_a_read;
          token_b_read = token_b_read;
          mint_read = mint_read;
          fee =
              (withdraw_fee_of-IsWithdrawFee rt s acc.pool_fee_account_info acc.source_info
                pool_tokens w fee w fee_due).1;
          burnt = (checked_sub-eq-ok pool_tokens fee (some_or-eq-ok _ _ left)).0;
          priced = some_or-eq-ok _ _ priced;
        } in
      (after, rw (← same) worth)

  pub quote_withdraw-IsQuote :
      (minimum_a minimum_b : ℕ) (s : SwapV1) (r : Reading) (w : World) (q : WithdrawQuote)
      (w' : World)
      → quote_withdraw m rt minimum_a minimum_b s r w ≡ ok (q, w')
      → (w' ≡ w) × IsQuote minimum_a minimum_b s r q
  unfolding quote_withdraw
  quote_withdraw-IsQuote minimum_a minimum_b s r w q w' h =
      let (x, x_fits, r1) = lift-eq-ok (to_u64 r.results.token_a_amount) _ w h in
      let (slippage_a, r2) = fail_if-eq-ok (ltb (min r.token_a.amount x) minimum_a) _ _ w r1 in
      let (y, y_fits, r3) = lift-eq-ok (to_u64 r.results.token_b_amount) _ w r2 in
      let (slippage_b, r4) = fail_if-eq-ok (ltb (min r.token_b.amount y) minimum_b) _ _ w r3 in
      let (some_a, r5) =
        fail_if-eq-ok
          (is_constant_product s && (min r.token_a.amount x == 0 && not (r.token_a.amount == 0))) _
          _ w r4 in
      let (some_b, r6) =
        fail_if-eq-ok
          (is_constant_product s && (min r.token_b.amount y == 0 && not (r.token_b.amount == 0))) _
          _ w r5 in
      let (same, after) = pure-eq-ok _ q w w' r6 in
      let exact_a = to_u64-eq-ok r.results.token_a_amount x x_fits in
      let exact_b = to_u64-eq-ok r.results.token_b_amount y y_fits in
      let is_quote : IsQuote minimum_a minimum_b s r (record {
        token_a_amount = min r.token_a.amount x;
        token_b_amount = min r.token_b.amount y;
      }) =
        record {
          given_a = ap (min r.token_a.amount) exact_a;
          given_b = ap (min r.token_b.amount) exact_b;
          slippage_a = ground (arith, slippage_a);
          slippage_b = ground (arith, slippage_b);
          something = ground (arith, some_a, some_b);
        } in
      (after, rw (← same) is_quote)

  -- A withdrawal of both tokens that succeeds ran on a stored pool with the pool's own accounts; the
  -- fee is due unless the fee account is no good or is the source, and with the pool tokens that
  -- are burnt it makes up those asked for; the curve turned the burnt ones into tokens by the
  -- reserves and the supply; of each token is given what the curve answered, or the whole reserve
  -- where that is less, and at least the user's minimum, on a constant product curve not zero
  -- unless the reserve is; and the tokens are moved after all this.
  pub process_withdraw_all_token_types-Worth :
      (program : Pubkey) (pool_tokens minimum_a minimum_b : ℕ) (accounts : List AccountInfo)
      (w w' : World) (acc : WithdrawAccounts)
      → read_withdraw_accounts accounts w ≡ ok (acc, w)
      → process_withdraw_all_token_types m rt program pool_tokens minimum_a minimum_b accounts w
        ≡ ok (tt, w')
      → (s : SwapV1) × (r : Reading) × (q : WithdrawQuote) × Pool rt program acc w s
        × Worth m rt pool_tokens acc w s r
        × IsQuote minimum_a minimum_b s r q
        × (settle_withdraw m rt acc s r q w ≡ ok (tt, w'))
  unfolding process_withdraw_all_token_types
  process_withdraw_all_token_types-Worth program pool_tokens minimum_a minimum_b accounts w w' acc
        read h =
      let (s, checked, r1) =
        >>=-eq-ok_same (check_withdraw m rt program acc) _ w
          (λ a v e. (check_withdraw-Pool program acc w a v e).0)
          (sym (>>=-of_ok (read_withdraw_accounts accounts) _ w acc w read) ∙ h) in
      let (r, worth, r2) =
        >>=-eq-ok_same (worth_of_withdraw m rt pool_tokens acc s) _ w
          (λ a v e. (worth_of_withdraw-Worth pool_tokens acc s w a v e).0) r1 in
      let (q, quoted, r3) =
        >>=-eq-ok_same (quote_withdraw m rt minimum_a minimum_b s r) _ w
          (λ a v e. (quote_withdraw-IsQuote minimum_a minimum_b s r w a v e).0) r2 in
      (
        s,
        r,
        q,
        (check_withdraw-Pool program acc w s w checked).1,
        (worth_of_withdraw-Worth pool_tokens acc s w r w worth).1,
        (quote_withdraw-IsQuote minimum_a minimum_b s r w q w quoted).1,
        r3,
      )
