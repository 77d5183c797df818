-- ===== src/Processor/DepositSingle/Value.antt =====
-- What a deposit of one token gets in pool tokens (program/src/processor.rs).
use solana_psm.Common.{ℕ, ◌≤◌, ◌<◌, ◌≡◌, ap, ok, List, Option}
use solana_psm.Math.{SplMath, IsSplMath}
use solana_psm.Curve.Charging.Fair.{PricedAt}
use solana_psm.Curve.Charging.Single.{Deposited, deposit_single-Deposited}
use solana_psm.Runtime.{Pubkey, Runtime, World, AccountInfo, Mint}
use solana_psm.State.{SwapV1, unpack}
use solana_psm.Processor.Tokens.{unpack_mint, get_current_timestamp_opt}
use solana_psm.Processor.Single.{Sides}
use solana_psm.Processor.DepositSingle.{
  DepositAccounts, Issue, read_deposit_accounts, settle_deposit,
  process_deposit_single_token_type_exact_amount_in,
}
use solana_psm.Processor.DepositSingle.Checks.{Pool, process_deposit_single-Issue}

module _ (m : SplMath) (rt : Runtime) where
  -- A deposit of one token that succeeds on a curve with a price mints for the user more than zero
  -- pool tokens and at least the user's minimum. Both trading fees are those of half the deposit (at
  -- least of one unit), and what the user gets is at most the share of the supply that the value of
  -- the deposit without these fees is of the value of the reserves, as the code reckons it: in whole
  -- tokens A, rounded down, and at most the share by the exact values if the reserves were worth one
  -- token A less. This does not count the pool tokens that may be minted for a positive owner's fee.
  pub process_deposit_single-le-share :
      (laws : IsSplMath m) (program : Pubkey) (source_token_amount minimum p : ℕ)
      (accounts : List AccountInfo) (w w' : World) (acc : DepositAccounts) (s : SwapV1)
      (mint : Mint) (timestamp : Option ℕ)
      → read_deposit_accounts accounts w ≡ ok (acc, w)
      → unpack rt (w acc.swap_info.key).bytes ≡ ok s
      → unpack_mint rt acc.pool_mint_info w ≡ ok mint
      → get_current_timestamp_opt rt s ≡ ok timestamp
      → PricedAt m s.swap_curve.calculator timestamp p
      → process_deposit_single_token_type_exact_amount_in m rt program source_token_amount minimum
          accounts w
        ≡ ok (tt, w')
      → (side : Sides) × (issue : Issue) × (side.state ≡ s)
        × Pool rt program acc w side
        × (minimum ≤ issue.pool_token_amount)
        × (0 < issue.pool_token_amount)
        × (issue.pool_token_amount ≡ issue.result.amount)
        × Deposited s.fees source_token_amount side.token_a.amount side.token_b.amount mint.supply p
            side.direction issue.result
        × (settle_deposit m rt source_token_amount acc side issue w ≡ ok (tt, w'))
  process_deposit_single-le-share laws program source_token_amount minimum p accounts w w' acc s
        mint timestamp read stored mint_read clock priced h =
      let (side, issue, pool, quote, settled) =
        process_deposit_single-Issue m rt program source_token_amount minimum accounts w w' acc read
          h in
      let same : side.state ≡ s = cc (stored, pool.stored) in
      let supply : issue.pool_mint ≡ mint = cc (mint_read, quote.mint_read) in
      let now : quote.timestamp ≡ timestamp = cc (clock, rw same at quote.clock) in
      let priced_then : PricedAt m side.state.swap_curve.calculator quote.timestamp p =
        rw (same, now) priced in
      (
        side,
        issue,
        same,
        pool,
        quote.slippage,
        quote.something,
        quote.given,
        rw (same, ap (λ t. t.supply) supply) at
            (deposit_single-Deposited m laws side.state.swap_curve source_token_amount
              side.token_a.amount side.token_b.amount issue.pool_mint.supply p side.direction
              side.state.fees quote.timestamp issue.result priced_then
              (rw quote.given at quote.something) quote.priced),
        settled,
      )
