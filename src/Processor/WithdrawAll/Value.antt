-- ===== src/Processor/WithdrawAll/Value.antt =====
-- What a withdrawal of both tokens gives for the pool tokens (program/src/processor.rs).
use solana_psm.Common.{ℕ, ◌+◌, ◌*◌, ◌≤◌, ◌≡◌, ap, ok, List, some, arith}
use native.Mathlib.Nat.{mul-le-mul_right, le_trans}
use solana_psm.Math.{SplMath, IsSplMath}
use solana_psm.Curve.Shares.{reckoned_b, tokens_out-le-share}
use solana_psm.Runtime.{Pubkey, Runtime, World, AccountInfo, TokenAccount, Mint}
use solana_psm.State.{SwapV1, unpack}
use solana_psm.Processor.Tokens.{unpack_token_account, unpack_mint}
use solana_psm.Processor.WithdrawAll.{
  WithdrawAccounts, Reading, WithdrawQuote, read_withdraw_accounts, settle_withdraw,
  process_withdraw_all_token_types,
}
use solana_psm.Processor.WithdrawAll.Checks.{process_withdraw_all_token_types-Worth}

module _ (m : SplMath) (rt : Runtime) where
  -- A withdrawal of both tokens that succeeds gives of each token at least the user's minimum, at
  -- most the reserve, and at most the share that the burnt pool tokens are of the supply: of the
  -- reserve, or, for token B on an offset curve, of the reserve with the offset, which can be more than
  -- that share of what the reserve holds. What is burnt and the fee are the pool tokens asked for.
  pub process_withdraw_all_token_types-le-share :
      (laws : IsSplMath m) (program : Pubkey) (pool_tokens minimum_a minimum_b : ℕ)
      (accounts : List AccountInfo) (w w' : World) (acc : WithdrawAccounts) (s : SwapV1)
      (token_a token_b : TokenAccount) (mint : Mint)
      → read_withdraw_accounts accounts w ≡ ok (acc, w)
      → unpack rt (w acc.swap_info.key).bytes ≡ ok s
      → unpack_token_account rt acc.token_a_info (some acc.token_a_mint_info.key) w ≡ ok token_a
      → unpack_token_account rt acc.token_b_info (some acc.token_b_mint_info.key) w ≡ ok token_b
      → unpack_mint rt acc.pool_mint_info w ≡ ok mint
      → process_withdraw_all_token_types m rt program pool_tokens minimum_a minimum_b accounts w
        ≡ ok (tt, w')
      → (r : Reading) × (q : WithdrawQuote) × (r.pool_token_amount + r.withdraw_fee ≡ pool_tokens)
        × (minimum_a ≤ q.token_a_amount)
        × (minimum_b ≤ q.token_b_amount)
        × (q.token_a_amount ≤ token_a.amount)
        × (q.token_b_amount ≤ token_b.amount)
        × (q.token_a_amount * mint.supply ≤ r.pool_token_amount * token_a.amount)
        × (q.token_b_amount * mint.supply
            ≤ r.pool_token_amount * reckoned_b s.swap_curve.calculator token_b.amount)
        × (settle_withdraw m rt acc s r q w ≡ ok (tt, w'))
  process_withdraw_all_token_types-le-share laws program pool_tokens minimum_a minimum_b accounts w
        w' acc s token_a token_b mint read stored a b c h =
      let (s', r, q, pool, worth, quote, settled) =
        process_withdraw_all_token_types-Worth m rt program pool_tokens minimum_a minimum_b accounts
          w w' acc read h in
      let same : s' ≡ s = cc (stored, pool.stored) in
      let e1 : r.token_a ≡ token_a = cc (a, worth.token_a_read) in
      let e2 : r.token_b ≡ token_b = cc (b, worth.token_b_read) in
      let e3 : r.pool_mint ≡ mint = cc (c, worth.mint_read) in
      let amount_a = ap (λ t. t.amount) e1 in
      let amount_b = ap (λ t. t.amount) e2 in
      let supply = ap (λ t. t.supply) e3 in
      let (share_a, share_b) =
        tokens_out-le-share m laws s'.swap_curve.calculator r.pool_token_amount r.pool_mint.supply
          r.token_a.amount r.token_b.amount r.results worth.priced in
      (
        r,
        q,
        worth.burnt,
        quote.slippage_a,
        quote.slippage_b,
        omega (arith, quote.given_a, amount_a),
        omega (arith, quote.given_b, amount_b),
        rw (← supply, ← amount_a)
            (le_trans (mul-le-mul_right r.pool_mint.supply (omega (arith, quote.given_a))) share_a),
        rw (← supply, ← amount_b, ← same)
            (le_trans (mul-le-mul_right r.pool_mint.supply (omega (arith, quote.given_b))) share_b),
        rw same at settled,
      )
