-- ===== src/Processor/WithdrawSingle/Checks.antt =====
-- What a withdrawal of one token that is settled has passed (program/src/processor.rs).
use solana_psm.Common.{
  ℕ, ◌+◌, ◌≤◌, ◌<◌, ◌≡◌, sym, ◌∙◌, ok, List, Option, some, ◌==◌, ltb, checked_add,
  checked_add-eq-ok, arith,
}
use solana_psm.Error.{SwapError}
use solana_psm.Math.{SplMath}
use solana_psm.Curve.Charging.{withdraw_single_token_type_exact_out}
use solana_psm.Runtime.{Pubkey, Runtime, World, AccountInfo, TokenAccount}
use solana_psm.Runtime.Action.{
  fail_if-eq-ok, fail_if-eq-ok_last, lift-eq-ok, pure-eq-ok, >>=-eq-ok_same, >>=-eq-ok, >>=-of_ok,
}
use solana_psm.State.{unpack}
use solana_psm.Processor.Tokens.{
  some_or, to_u64, unpack_token_account, unpack_mint, get_current_timestamp_opt,
}
use solana_psm.Processor.Tokens.Inversion.{some_or-eq-ok, to_u64-eq-ok}
use solana_psm.Processor.Accounts.{Matches, check_accounts, check_accounts-Matches}
use solana_psm.Processor.Single.{Sides, side_of}
use solana_psm.Processor.WithdrawAll.{withdraw_fee_of}
use solana_psm.Processor.WithdrawAll.Fee.{IsWithdrawFee, withdraw_fee_of-IsWithdrawFee}
use solana_psm.Processor.WithdrawSingle.{
  WithdrawAccounts, Cost, pool_accounts, read_withdraw_accounts, check_withdraw, cost_of_withdraw,
  pay_owner_if_due, check_cost, settle_withdraw,
  process_withdraw_single_token_type_exact_amount_out,
}

-- The pool that a withdrawal is checked against, its reserves, and the side of the user's token.
pub record Pool (rt : Runtime) (program : Pubkey) (acc : WithdrawAccounts) (w : World)
    (side : Sides) : Type 0 where
  pub stored : unpack rt (w acc.swap_info.key).bytes ≡ ok side.state
  pub destination : TokenAccount
  pub destination_read :
      unpack_token_account rt acc.destination_info (some acc.destination_token_mint_info.key) w
      ≡ ok destination
  pub token_a_read :
      unpack_token_account rt acc.swap_token_a_info (some side.state.token_a_mint) w
      ≡ ok side.token_a
  pub token_b_read :
      unpack_token_account rt acc.swap_token_b_info (some side.state.token_b_mint) w
      ≡ ok side.token_b
  pub sided : side_of destination side.token_a side.token_b ≡ ok side.direction
  pub accounts : Matches rt side.state program (pool_accounts acc side) w

-- What the curve was asked, what it answered, and the fee on that.
pub record IsCost (m : SplMath) (rt : Runtime) (destination_token_amount : ℕ)
    (acc : WithdrawAccounts) (w : World) (side : Sides) (cost : Cost) : Type 0 where
  pub timestamp : Option ℕ
  pub mint_read : unpack_mint rt acc.pool_mint_info w ≡ ok cost.pool_mint
  pub clock : get_current_timestamp_opt rt side.state ≡ ok timestamp
  pub priced :
      withdraw_single_token_type_exact_out m side.state.swap_curve destination_token_amount
        side.token_a.amount side.token_b.amount cost.pool_mint.supply side.direction side.state.fees
        timestamp
      ≡ ok cost.result
  pub fee :
      IsWithdrawFee rt side.state acc.pool_fee_account_info acc.source_info cost.result.amount w
        cost.withdraw_fee

-- The pool tokens that the user pays in all are some, and not more than the user allows.
abbrev pub IsAllowed : ℕ → Cost → Type 0
IsAllowed maximum cost =
    (cost.result.amount + cost.withdraw_fee ≤ maximum)
    × (0 < cost.result.amount + cost.withdraw_fee)

module _ (m : SplMath) (rt : Runtime) where
  pub check_withdraw-Pool :
      (program : Pubkey) (acc : WithdrawAccounts) (w : World) (side : Sides) (w' : World)
      → check_withdraw m rt program acc w ≡ ok (side, w')
      → (w' ≡ w) × Pool rt program acc w side
  unfolding check_withdraw
  check_withdraw-Pool program acc w side w' h =
      let (s, stored, r1) = lift-eq-ok (unpack rt (w acc.swap_info.key).bytes) _ w h in
      let (destination, destination_read, r2) =
        lift-eq-ok
          (unpack_token_account rt acc.destination_info (some acc.destination_token_mint_info.key)
            w)
          _ w r1 in
      let (token_a, token_a_read, r3) =
        lift-eq-ok (unpack_token_account rt acc.swap_token_a_info (some s.token_a_mint) w) _ w r2 in
      let (token_b, token_b_read, r4) =
        lift-eq-ok (unpack_token_account rt acc.swap_token_b_info (some s.token_b_mint) w) _ w r3 in
      let (direction, sided, r5) = lift-eq-ok (side_of destination token_a token_b) _ w r4 in
      let side' : Sides = record {
        state = s;
        token_a = token_a;
        token_b = token_b;
        direction = direction;
      } in
      let given = pool_accounts acc side' in
      let (_, checked, r6) =
        >>=-eq-ok_same (check_accounts rt s program given) _ w
          (λ a v e. (check_accounts-Matches rt s program given w a v e).0) r5 in
      let (same, after) = pure-eq-ok side' side w w' r6 in
      let pool : Pool rt program acc w side' = record {
        stored = stored;
        destination = destination;
        destination_read = destination_read;
        token_a_read = token_a_read;
        token_b_read = token_b_read;
        sided = sided;
        accounts = (check_accounts-Matches rt s program given w tt w checked).1;
      } in
      (after, rw (← same) pool)

  pub cost_of_withdraw-IsCost :
      (destination_token_amount : ℕ) (acc : WithdrawAccounts) (side : Sides) (w : World)
      (cost : Cost) (w' : World)
      → cost_of_withdraw m rt destination_token_amount acc side w ≡ ok (cost, w')
      → (w' ≡ w) × IsCost m rt destination_token_amount acc w side cost
  unfolding cost_of_withdraw
  cost_of_withdraw-IsCost destination_token_amount acc side w cost w' h =
      let (mint, mint_read, r1) = lift-eq-ok (unpack_mint rt acc.pool_mint_info w) _ w h in
      let (timestamp, clock, r2) = lift-eq-ok (get_current_timestamp_opt rt side.state) _ w r1 in
      let (result, priced, r3) =
        lift-eq-ok
          (some_or
            (withdraw_single_token_type_exact_out m side.state.swap_curve destination_token_amount
              side.token_a.amount side.token_b.amount mint.supply side.direction side.state.fees
              timestamp)
            SwapError.zero_trading_tokens)
          _ w r2 in
      let fee_is =
        withdraw_fee_of-IsWithdrawFee rt side.state acc.pool_fee_account_info acc.source_info
          result.amount w in
      let (fee, fee_due, r4) =
        >>=-eq-ok_same
          (withdraw_fee_of rt side.state acc.pool_fee_account_info acc.source_info result.amount) _
          w (λ a v e. (fee_is a v e).0) r3 in
      let (same, after) = pure-eq-ok _ cost w w' r4 in
      let is_cost : IsCost m rt destination_token_amount acc w side
          (record { pool_mint = mint; result = result; withdraw_fee = fee }) =
        record {
          timestamp = timestamp;
          mint_read = mint_read;
          clock = clock;
          priced = some_or-eq-ok _ _ priced;
          fee = (fee_is fee w fee_due).1;
        } in
      (after, rw (← same) is_cost)

  pub check_cost-IsAllowed :
      (maximum : ℕ) (cost : Cost) (w : World) (u : Unit {0}) (w' : World)
      → check_cost m rt maximum cost w ≡ ok (u, w')
      → (w' ≡ w) × IsAllowed maximum cost
  unfolding check_cost
  check_cost-IsAllowed maximum cost w u w' h =
      let (total, summed, r1) =
        lift-eq-ok
          (some_or (checked_add cost.result.amount cost.withdraw_fee) SwapError.calculation_failure)
          _ w h in
      let (asked, fits, r2) = lift-eq-ok (to_u64 total) _ w r1 in
      let (slippage, r3) = fail_if-eq-ok (ltb maximum asked) _ _ w r2 in
      let (something, after) = fail_if-eq-ok_last (total == 0) _ w r3 in
      let (sum, _) =
        checked_add-eq-ok cost.result.amount cost.withdraw_fee (some_or-eq-ok _ _ summed) in
      let exact = to_u64-eq-ok total asked fits in
      (after, (ground (arith, sum, exact, slippage), ground (arith, sum, something)))

  -- A withdrawal of one token that succeeds ran on a stored pool with the pool's own accounts, on
  -- the side of the reserve that has the user's mint; the curve priced the amount by the reserves
  -- and the supply; the fee on the pool tokens to burn is due unless the fee account is no good or
  -- is the source; both together are more than zero and at most the user's maximum; and the tokens
  -- are moved after all this and after the owner's fee, if one is due, has been minted.
  pub process_withdraw_single-Cost :
      (program : Pubkey) (destination_token_amount maximum : ℕ) (accounts : List AccountInfo)
      (w w' : World) (acc : WithdrawAccounts)
      → read_withdraw_accounts accounts w ≡ ok (acc, w)
      → process_withdraw_single_token_type_exact_amount_out m rt program destination_token_amount
          maximum accounts w
        ≡ ok (tt, w')
      → (side : Sides) × (cost : Cost) × (paid : World) × Pool rt program acc w side
        × IsCost m rt destination_token_amount acc w side cost
        × IsAllowed maximum cost
        × (pay_owner_if_due m rt destination_token_amount acc side cost w ≡ ok (tt, paid))
        × (settle_withdraw m rt destination_token_amount acc side cost paid ≡ ok (tt, w'))
  unfolding process_withdraw_single_token_type_exact_amount_out
  process_withdraw_single-Cost program destination_token_amount maximum accounts w w' acc read h =
      let (side, checked, r1) =
        >>=-eq-ok_same (check_withdraw m rt program acc) _ w
          (λ a v e. (check_withdraw-Pool program acc w a v e).0)
          (sym (>>=-of_ok (read_withdraw_accounts accounts) _ w acc w read) ∙ h) in
      let (cost, priced, r2) =
        >>=-eq-ok_same (cost_of_withdraw m rt destination_token_amount acc side) _ w
          (λ a v e. (cost_of_withdraw-IsCost destination_token_amount acc side w a v e).0) r1 in
      let (_, paid, paid_out, r3) =
        >>=-eq-ok (pay_owner_if_due m rt destination_token_amount acc side cost) _ w r2 in
      let (_, allowed, r4) =
        >>=-eq-ok_same (check_cost m rt maximum cost) _ paid
          (λ a v e. (check_cost-IsAllowed maximum cost paid a v e).0) r3 in
      (
        side,
        cost,
        paid,
        (check_withdraw-Pool program acc w side w checked).1,
        (cost_of_withdraw-IsCost destination_token_amount acc side w cost w priced).1,
        (check_cost-IsAllowed maximum cost paid tt paid allowed).1,
        paid_out,
        r4,
      )
