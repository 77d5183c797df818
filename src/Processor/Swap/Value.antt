-- ===== src/Processor/Swap/Value.antt =====
-- What a swap moves, and what the pool gains by it (program/src/processor.rs).
use solana_psm.Common.{ℕ, ◌+◌, ◌-◌, ◌≤◌, ◌<◌, ◌≡◌, ap, ok, List, Option, some, arith}
use solana_psm.Math.{SplMath, IsSplMath}
use solana_psm.Curve.Charging
use solana_psm.Curve.Charging.{SwapResult}
use solana_psm.Curve.Charging.Fair.{PricedAt, value_of, swap_gains_fees}
use solana_psm.Runtime.{Pubkey, Runtime, World, AccountInfo, TokenAccount}
use solana_psm.State.{SwapV1, unpack}
use solana_psm.Processor.Tokens.{unpack_token_account, get_current_timestamp_opt}
use solana_psm.Processor.Swap.{
  SwapAccounts, Quote, direction_of, read_swap_accounts, settle_swap, process_swap,
}
use solana_psm.Processor.Swap.Checks.{Exchange, process_swap-Exchange}

module _ (m : SplMath) (laws : IsSplMath m) (rt : Runtime) where
  swap-Exchange :
      (amount_in : ℕ) (acc : SwapAccounts) (w : World) (s : SwapV1)
      (source destination : TokenAccount) (timestamp : Option ℕ) (result : SwapResult)
      → unpack_token_account rt acc.swap_source_info (some acc.source_token_mint_info.key) w
        ≡ ok source
      → unpack_token_account rt acc.swap_destination_info
          (some acc.destination_token_mint_info.key)
          w
        ≡ ok destination
      → get_current_timestamp_opt rt s ≡ ok timestamp
      → Exchange m rt amount_in acc w s result
      → Charging.swap m s.swap_curve amount_in source.amount destination.amount
          (direction_of acc s)
          s.fees
          timestamp
        ≡ ok result
  swap-Exchange amount_in acc w s source destination timestamp result a b c ex =
      let e1 : ex.source ≡ source = cc (a, ex.source_read) in
      let e2 : ex.destination ≡ destination = cc (b, ex.destination_read) in
      let e3 : ex.timestamp ≡ timestamp = cc (c, ex.clock) in
      rw (ap (λ t. t.amount) e1, ap (λ t. t.amount) e2, e3) at ex.exchanged

  -- A swap that succeeds on a curve with a price asks the user to pay in, and the pool to give out,
  -- the two amounts of one quote, with at least the minimum given out, and moves the tokens after
  -- that; with these amounts the pool's reserves, as they are in their accounts before the swap,
  -- gain in value at least the two fees, of which the amount paid in is more.
  pub process_swap-value :
      (program : Pubkey) (amount_in minimum_amount_out p : ℕ) (accounts : List AccountInfo)
      (w w' : World) (acc : SwapAccounts) (s : SwapV1) (source destination : TokenAccount)
      (timestamp : Option ℕ)
      → read_swap_accounts accounts w ≡ ok (acc, w)
      → unpack rt (w acc.swap_info.key).bytes ≡ ok s
      → unpack_token_account rt acc.swap_source_info (some acc.source_token_mint_info.key) w
        ≡ ok source
      → unpack_token_account rt acc.swap_destination_info
          (some acc.destination_token_mint_info.key)
          w
        ≡ ok destination
      → get_current_timestamp_opt rt s ≡ ok timestamp
      → PricedAt m s.swap_curve.calculator timestamp p
      → process_swap m rt program amount_in minimum_amount_out accounts w ≡ ok (tt, w')
      → (q : Quote) × (minimum_amount_out ≤ q.destination_amount)
        × (q.destination_amount ≤ destination.amount)
        × (q.result.trade_fee + q.result.owner_fee < q.source_amount)
        × (value_of p
              (direction_of acc s)
              (source.amount + (q.result.trade_fee + q.result.owner_fee))
              destination.amount
            ≤ value_of p
                (direction_of acc s)
                (source.amount + q.source_amount)
                (destination.amount - q.destination_amount))
        × (settle_swap m rt acc q w ≡ ok (tt, w'))
  process_swap-value program amount_in minimum_amount_out p accounts w w' acc s source destination
        timestamp read stored a b c priced h =
      let (s', result, q, pool, ex, quote, settled) =
        process_swap-Exchange m rt program amount_in minimum_amount_out accounts w w' acc read h in
      let same : s' ≡ s = cc (stored, pool.stored) in
      let run =
        swap-Exchange amount_in acc w s source destination timestamp result a b c (rw same at ex) in
      let (new_source, new_destination, fees, gain) =
        swap_gains_fees m laws s.swap_curve amount_in source.amount destination.amount p
          (direction_of acc s) s.fees timestamp result priced run in
      let given : result.destination_amount_swapped ≡ q.destination_amount =
        omega (arith, quote.given) in
      let left : result.new_swap_destination_amount ≡ destination.amount - q.destination_amount =
        omega (arith, new_destination, given) in
      let grown : result.new_swap_source_amount ≡ source.amount + q.source_amount =
        omega (arith, new_source, quote.taken) in
      let paid : q.source_amount ≡ result.source_amount_swapped = quote.taken in
      (
        q,
        omega (arith, quote.slippage, given),
        omega (arith, new_destination, given),
        rw (quote.same_result, paid) fees,
        rw (quote.same_result, ← grown, ← left) gain,
        settled,
      )
