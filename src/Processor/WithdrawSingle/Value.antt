-- ===== src/Processor/WithdrawSingle/Value.antt =====
-- What a withdrawal of one token costs in pool tokens (program/src/processor.rs).
use solana_psm.Common.{ℕ, ◌+◌, ◌*◌, ◌/◌, ◌≤◌, ◌<◌, ◌≡◌, ap, ok, List, Option, some}
use solana_psm.Math.{SplMath, IsSplMath}
use solana_psm.Curve.Priced.{ray}
use solana_psm.Curve.Priced.Pool.{given_worth}
use solana_psm.Curve.Charging.Fair.{PricedAt}
use solana_psm.Curve.Charging.Single.{Withdrawn, withdraw_single-Withdrawn}
use solana_psm.Runtime.{Pubkey, Runtime, World, AccountInfo, TokenAccount, Mint}
use solana_psm.State.{unpack}
use solana_psm.Processor.Tokens.{unpack_token_account, unpack_mint, get_current_timestamp_opt}
use solana_psm.Processor.Single.{Sides, side_of}
use solana_psm.Processor.WithdrawSingle.{
  WithdrawAccounts, Cost, read_withdraw_accounts, pay_owner_if_due, settle_withdraw,
  process_withdraw_single_token_type_exact_amount_out,
}
use solana_psm.Processor.WithdrawSingle.Checks.{Pool, process_withdraw_single-Cost}

module _ (m : SplMath) (rt : Runtime) where
  -- The side that the handler finds is the one that the accounts give.
  Pool-side :
      (program : Pubkey) (acc : WithdrawAccounts) (w : World) (side known : Sides)
      (destination : TokenAccount)
      → unpack rt (w acc.swap_info.key).bytes ≡ ok known.state
      → unpack_token_account rt acc.destination_info (some acc.destination_token_mint_info.key) w
        ≡ ok destination
      → unpack_token_account rt acc.swap_token_a_info (some known.state.token_a_mint) w
        ≡ ok known.token_a
      → unpack_token_account rt acc.swap_token_b_info (some known.state.token_b_mint) w
        ≡ ok known.token_b
      → side_of destination known.token_a known.token_b ≡ ok known.direction
      → Pool rt program acc w side
      → side ≡ known
  Pool-side program acc w side known destination stored d a b sided pool =
      let e : side.state ≡ known.state = cc (stored, pool.stored) in
      let ed : pool.destination ≡ destination = cc (d, pool.destination_read) in
      let ea : side.token_a ≡ known.token_a = cc (a, rw e at pool.token_a_read) in
      let eb : side.token_b ≡ known.token_b = cc (b, rw e at pool.token_b_read) in
      let ei : side.direction ≡ known.direction = cc (sided, rw (ed, ea, eb) at pool.sided) in
      λ i. record { state = e i; token_a = ea i; token_b = eb i; direction = ei i }

  -- A withdrawal of one token that succeeds on a curve with a price takes in all, burnt and as a
  -- fee, at most the user's maximum of pool tokens and more than zero. Half the token given out counts
  -- as what is left after both trading fees, and what is burnt is at least the share of the supply that
  -- the value of the token with these fees is of the value of the reserves, as the code reckons it: in
  -- whole tokens A, rounded down, and at least the share by the exact values if the token with its fees
  -- were worth one token A less. This where the token asked for is not nothing and its own share is at
  -- least one unit; and it does not count the pool tokens that may be minted for the owner's fee.
  pub process_withdraw_single-ge-share :
      (laws : IsSplMath m) (program : Pubkey) (destination_token_amount maximum p : ℕ)
      (accounts : List AccountInfo) (w w' : World) (acc : WithdrawAccounts) (side : Sides)
      (destination : TokenAccount) (mint : Mint) (timestamp : Option ℕ)
      → read_withdraw_accounts accounts w ≡ ok (acc, w)
      → unpack rt (w acc.swap_info.key).bytes ≡ ok side.state
      → unpack_token_account rt acc.destination_info (some acc.destination_token_mint_info.key) w
        ≡ ok destination
      → unpack_token_account rt acc.swap_token_a_info (some side.state.token_a_mint) w
        ≡ ok side.token_a
      → unpack_token_account rt acc.swap_token_b_info (some side.state.token_b_mint) w
        ≡ ok side.token_b
      → side_of destination side.token_a side.token_b ≡ ok side.direction
      → unpack_mint rt acc.pool_mint_info w ≡ ok mint
      → get_current_timestamp_opt rt side.state ≡ ok timestamp
      → PricedAt m side.state.swap_curve.calculator timestamp p
      → 0 < destination_token_amount
      → side.token_b.amount * p / ray + side.token_a.amount
        ≤ mint.supply * given_worth p destination_token_amount side.direction
      → process_withdraw_single_token_type_exact_amount_out m rt program destination_token_amount
          maximum accounts w
        ≡ ok (tt, w')
      → (cost : Cost) × (paid : World) × (cost.result.amount + cost.withdraw_fee ≤ maximum)
        × (0 < cost.result.amount + cost.withdraw_fee)
        × Withdrawn side.state.fees destination_token_amount side.token_a.amount side.token_b.amount
            mint.supply p side.direction cost.result
        × (pay_owner_if_due m rt destination_token_amount acc side cost w ≡ ok (tt, paid))
        × (settle_withdraw m rt destination_token_amount acc side cost paid ≡ ok (tt, w'))
  process_withdraw_single-ge-share laws program destination_token_amount maximum p accounts w w' acc
        side destination mint timestamp read stored d a b sided mint_read clock priced asked unit
        h =
      let (found, cost, paid, pool, quote, allowed, owner_paid, settled) =
        process_withdraw_single-Cost m rt program destination_token_amount maximum accounts w w' acc
          read h in
      let same = Pool-side program acc w found side destination stored d a b sided pool in
      let quote' = rw same at quote in
      let now : quote'.timestamp ≡ timestamp = cc (clock, quote'.clock) in
      let supply : cost.pool_mint ≡ mint = cc (mint_read, quote'.mint_read) in
      let supply_same = ap (λ t. t.supply) supply in
      (
        cost,
        paid,
        allowed.0,
        allowed.1,
        rw supply_same at (
            withdraw_single-Withdrawn m laws side.state.swap_curve destination_token_amount
              side.token_a.amount side.token_b.amount cost.pool_mint.supply p side.direction
              side.state.fees quote'.timestamp cost.result (rw now priced) asked
              (rw supply_same unit) quote'.priced),
        rw same at owner_paid,
        rw same at settled,
      )
