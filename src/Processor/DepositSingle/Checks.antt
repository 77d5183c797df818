-- ===== src/Processor/DepositSingle/Checks.antt =====
-- What a deposit of one token that is settled has passed (program/src/processor.rs).
use solana_psm.Common.{
  ℕ, ◌≤◌, ◌<◌, ◌≡◌, sym, ◌∙◌, ok, List, Option, some, true, not, ◌==◌, ltb, arith,
}
use solana_psm.Error.{SwapError}
use solana_psm.Math.{SplMath}
use solana_psm.Curve.Base.{allows_deposits}
use solana_psm.Curve.Charging.{deposit_single_token_type}
use solana_psm.Runtime.{Pubkey, Runtime, World, AccountInfo, TokenAccount}
use solana_psm.Runtime.Action.{fail_if-eq-ok, lift-eq-ok, pure-eq-ok, >>=-eq-ok_same, >>=-of_ok}
use solana_psm.State.{unpack}
use solana_psm.Processor.Tokens.{
  some_or, to_u64, unpack_token_account, unpack_mint, get_current_timestamp_opt,
}
use solana_psm.Processor.Tokens.Inversion.{some_or-eq-ok, to_u64-eq-ok}
use solana_psm.Processor.Accounts.{Matches, check_accounts, check_accounts-Matches}
use solana_psm.Processor.Single.{Sides, side_of}
use solana_psm.Processor.DepositSingle.{
  DepositAccounts, Issue, pool_accounts, read_deposit_accounts, check_deposit, issue_deposit,
  settle_deposit, process_deposit_single_token_type_exact_amount_in,
}

-- The pool that a deposit is checked against, its reserves, and the side of the user's token.
pub record Pool (rt : Runtime) (program : Pubkey) (acc : DepositAccounts) (w : World) (side : Sides)
    : Type 0 where
  pub stored : unpack rt (w acc.swap_info.key).bytes ≡ ok side.state
  pub allowed : allows_deposits side.state.swap_curve.calculator ≡ true
  pub source : TokenAccount
  pub source_read :
      unpack_token_account rt acc.source_info (some acc.source_token_mint_info.key) w ≡ ok source
  pub token_a_read :
      unpack_token_account rt acc.swap_token_a_info (some side.state.token_a_mint) w
      ≡ ok side.token_a
  pub token_b_read :
      unpack_token_account rt acc.swap_token_b_info (some side.state.token_b_mint) w
      ≡ ok side.token_b
  pub sided : side_of source side.token_a side.token_b ≡ ok side.direction
  pub accounts : Matches rt side.state program (pool_accounts acc side) w

-- What the curve was asked, what it answered, and the pool tokens to mint.
pub record IsIssue (m : SplMath) (rt : Runtime) (source_token_amount minimum : ℕ)
    (acc : DepositAccounts) (w : World) (side : Sides) (issue : Issue) : Type 0 where
  pub timestamp : Option ℕ
  pub mint_read : unpack_mint rt acc.pool_mint_info w ≡ ok issue.pool_mint
  pub clock : get_current_timestamp_opt rt side.state ≡ ok timestamp
  pub priced :
      deposit_single_token_type m side.state.swap_curve source_token_amount side.token_a.amount
        side.token_b.amount issue.pool_mint.supply side.direction side.state.fees timestamp
      ≡ ok issue.result
  pub given : issue.pool_token_amount ≡ issue.result.amount
  pub slippage : minimum ≤ issue.pool_token_amount
  pub something : 0 < issue.pool_token_amount

module _ (m : SplMath) (rt : Runtime) where
  pub check_deposit-Pool :
      (program : Pubkey) (acc : DepositAccounts) (w : World) (side : Sides) (w' : World)
      → check_deposit m rt program acc w ≡ ok (side, w')
      → (w' ≡ w) × Pool rt program acc w side
  unfolding check_deposit
  check_deposit-Pool program acc w side w' h =
      let (s, stored, r1) = lift-eq-ok (unpack rt (w acc.swap_info.key).bytes) _ w h in
      let (allowed, r2) = fail_if-eq-ok (not (allows_deposits s.swap_curve.calculator)) _ _ w r1 in
      let (source, source_read, r3) =
        lift-eq-ok (unpack_token_account rt acc.source_info (some acc.source_token_mint_info.key) w)
          _ w r2 in
      let (token_a, token_a_read, r4) =
        lift-eq-ok (unpack_token_account rt acc.swap_token_a_info (some s.token_a_mint) w) _ w r3 in
      let (token_b, token_b_read, r5) =
        lift-eq-ok (unpack_token_account rt acc.swap_token_b_info (some s.token_b_mint) w) _ w r4 in
      let (direction, sided, r6) = lift-eq-ok (side_of source token_a token_b) _ w r5 in
      let side' : Sides = record {
        state = s;
        token_a = token_a;
        token_b = token_b;
        direction = direction;
      } in
      let given = pool_accounts acc side' in
      let (_, checked, r7) =
        >>=-eq-ok_same (check_accounts rt s program given) _ w
          (λ a v e. (check_accounts-Matches rt s program given w a v e).0) r6 in
      let (same, after) = pure-eq-ok side' side w w' r7 in
      let pool : Pool rt program acc w side' = record {
        stored = stored;
        allowed = ground (arith, allowed);
        source = source;
        source_read = source_read;
        token_a_read = token_a_read;
        token_b_read = token_b_read;
        sided = sided;
        accounts = (check_accounts-Matches rt s program given w tt w checked).1;
      } in
      (after, rw (← same) pool)

  pub issue_deposit-IsIssue :
      (source_token_amount minimum : ℕ) (acc : DepositAccounts) (side : Sides) (w : World)
      (issue : Issue) (w' : World)
      → issue_deposit m rt source_token_amount minimum acc side w ≡ ok (issue, w')
      → (w' ≡ w) × IsIssue m rt source_token_amount minimum acc w side issue
  unfolding issue_deposit
  issue_deposit-IsIssue source_token_amount minimum acc side w issue w' h =
      let (mint, mint_read, r1) = lift-eq-ok (unpack_mint rt acc.pool_mint_info w) _ w h in
      let (timestamp, clock, r2) = lift-eq-ok (get_current_timestamp_opt rt side.state) _ w r1 in
      let (result, priced, r3) =
        lift-eq-ok
          (some_or
            (deposit_single_token_type m side.state.swap_curve source_token_amount
              side.token_a.amount side.token_b.amount mint.supply side.direction side.state.fees
              timestamp)
            SwapError.zero_trading_tokens)
          _ w r2 in
      let (given, fits, r4) = lift-eq-ok (to_u64 result.amount) _ w r3 in
      let (slippage, r5) = fail_if-eq-ok (ltb given minimum) _ _ w r4 in
      let (something, r6) = fail_if-eq-ok (given == 0) _ _ w r5 in
      let (same, after) = pure-eq-ok _ issue w w' r6 in
      let is_issue : IsIssue m rt source_token_amount minimum acc w side
          (record { pool_mint = mint; result = result; pool_token_amount = given }) =
        record {
          timestamp = timestamp;
          mint_read = mint_read;
          clock = clock;
          priced = some_or-eq-ok _ _ priced;
          given = to_u64-eq-ok result.amount given fits;
          slippage = ground (arith, slippage);
          something = ground (arith, something);
        } in
      (after, rw (← same) is_issue)

  -- A deposit of one token that succeeds ran on a stored pool whose curve allows deposits, with the
  -- pool's own accounts, on the side of the reserve that has the user's mint; the curve priced the
  -- amount by the reserves and the supply; the pool tokens to mint are what it answered, more than
  -- zero and at least the user's minimum; and the tokens are moved after all this.
  pub process_deposit_single-Issue :
      (program : Pubkey) (source_token_amount minimum : ℕ) (accounts : List AccountInfo)
      (w w' : World) (acc : DepositAccounts)
      → read_deposit_accounts accounts w ≡ ok (acc, w)
      → process_deposit_single_token_type_exact_amount_in m rt program source_token_amount minimum
          accounts w
        ≡ ok (tt, w')
      → (side : Sides) × (issue : Issue) × Pool rt program acc w side
        × IsIssue m rt source_token_amount minimum acc w side issue
        × (settle_deposit m rt source_token_amount acc side issue w ≡ ok (tt, w'))
  unfolding process_deposit_single_token_type_exact_amount_in
  process_deposit_single-Issue program source_token_amount minimum accounts w w' acc read h =
      let (side, checked, r1) =
        >>=-eq-ok_same (check_deposit m rt program acc) _ w
          (λ a v e. (check_deposit-Pool program acc w a v e).0)
          (sym (>>=-of_ok (read_deposit_accounts accounts) _ w acc w read) ∙ h) in
      let (issue, issued, r2) =
        >>=-eq-ok_same (issue_deposit m rt source_token_amount minimum acc side) _ w
          (λ a v e. (issue_deposit-IsIssue source_token_amount minimum acc side w a v e).0) r1 in
      (
        side,
        issue,
        (check_deposit-Pool program acc w side w checked).1,
        (issue_deposit-IsIssue source_token_amount minimum acc side w issue w issued).1,
        r2,
      )
