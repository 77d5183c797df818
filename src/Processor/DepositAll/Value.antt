-- ===== src/Processor/DepositAll/Value.antt =====
-- What a deposit of both tokens pays for its pool tokens (program/src/processor.rs).
use solana_psm.Common.{ℕ, ◌*◌, ◌≤◌, ◌<◌, ◌≡◌, ◌⊎◌, inl, inr, ap, ok, List, some, true, arith}
use solana_psm.Math.{SplMath, IsSplMath}
use solana_psm.Curve.Calculator.{TradingTokenResult, ceiling}
use solana_psm.Curve.Base.{product, pool_tokens_to_trading_tokens}
use solana_psm.Curve.Shares.{tokens_in-ge-share}
use solana_psm.Runtime.{Pubkey, Runtime, World, AccountInfo, TokenAccount, Mint}
use solana_psm.State.{SwapV1, unpack}
use solana_psm.Processor.Tokens.{unpack_token_account, unpack_mint}
use solana_psm.Processor.DepositAll.{
  DepositAccounts, DepositQuote, is_constant_product, read_deposit_accounts, settle_deposit,
  process_deposit_all_token_types,
}
use solana_psm.Processor.DepositAll.Checks.{Price, IsQuote, process_deposit_all_token_types-Price}

module _ (m : SplMath) (rt : Runtime) where
  Price-same :
      (pool_tokens : ℕ) (acc : DepositAccounts) (w : World) (s : SwapV1)
      (token_a token_b : TokenAccount) (mint : Mint) (results : TradingTokenResult)
      → unpack_token_account rt acc.token_a_info (some acc.token_a_mint_info.key) w ≡ ok token_a
      → unpack_token_account rt acc.token_b_info (some acc.token_b_mint_info.key) w ≡ ok token_b
      → unpack_mint rt acc.pool_mint_info w ≡ ok mint
      → Price m rt pool_tokens acc w s results
      → pool_tokens_to_trading_tokens m s.swap_curve.calculator pool_tokens mint.supply
          token_a.amount token_b.amount ceiling
        ≡ ok results
  Price-same pool_tokens acc w s token_a token_b mint results a b c p =
      let e1 : p.token_a ≡ token_a = cc (a, p.token_a_read) in
      let e2 : p.token_b ≡ token_b = cc (b, p.token_b_read) in
      let e3 : p.mint ≡ mint = cc (c, p.mint_read) in
      rw (ap (λ t. t.amount) e1, ap (λ t. t.amount) e2, ap (λ t. t.supply) e3) at p.priced

  paid_for :
      (pool_tokens maximum_a maximum_b : ℕ) (s : SwapV1) (results : TradingTokenResult)
      (q : DepositQuote) (P : Type 0)
      → ((s.swap_curve.calculator ≡ product) × (is_constant_product s ≡ true)) ⊎ P
      → IsQuote pool_tokens maximum_a maximum_b s results q
      → ((s.swap_curve.calculator ≡ product)
          × (0 < results.token_a_amount)
          × (0 < results.token_b_amount))
        ⊎ P
  paid_for pool_tokens maximum_a maximum_b s results q P (inr worth) quote = inr worth
  paid_for pool_tokens maximum_a maximum_b s results q P (inl (same, constant)) quote =
      elim quote.something [
        | inl other ↦ cc
        | inr (some_a, some_b) ↦
            inl (same, omega (arith, quote.taken_a, some_a), omega (arith, quote.taken_b, some_b))
      ]

  -- A deposit of both tokens that succeeds mints exactly the pool tokens asked for, and takes of
  -- each token at most the user's maximum and at least the share of its reserve that these are of
  -- the supply; this where the curve is the constant product, or where the share of each reserve is at
  -- least one unit.
  pub process_deposit_all_token_types-ge-share :
      (laws : IsSplMath m) (program : Pubkey) (pool_tokens maximum_a maximum_b : ℕ)
      (accounts : List AccountInfo) (w w' : World) (acc : DepositAccounts) (s : SwapV1)
      (token_a token_b : TokenAccount) (mint : Mint)
      → read_deposit_accounts accounts w ≡ ok (acc, w)
      → unpack rt (w acc.swap_info.key).bytes ≡ ok s
      → unpack_token_account rt acc.token_a_info (some acc.token_a_mint_info.key) w ≡ ok token_a
      → unpack_token_account rt acc.token_b_info (some acc.token_b_mint_info.key) w ≡ ok token_b
      → unpack_mint rt acc.pool_mint_info w ≡ ok mint
      → ((s.swap_curve.calculator ≡ product) × (is_constant_product s ≡ true))
        ⊎ ((mint.supply ≤ pool_tokens * token_a.amount)
            × (mint.supply ≤ pool_tokens * token_b.amount))
      → process_deposit_all_token_types m rt program pool_tokens maximum_a maximum_b accounts w
        ≡ ok (tt, w')
      → (q : DepositQuote) × (q.pool_token_amount ≡ pool_tokens)
        × (q.token_a_amount ≤ maximum_a)
        × (q.token_b_amount ≤ maximum_b)
        × (pool_tokens * token_a.amount ≤ q.token_a_amount * mint.supply)
        × (pool_tokens * token_b.amount ≤ q.token_b_amount * mint.supply)
        × (settle_deposit m rt acc s q w ≡ ok (tt, w'))
  process_deposit_all_token_types-ge-share laws program pool_tokens maximum_a maximum_b accounts w
        w' acc s token_a token_b mint read stored a b c worth h =
      let (s', results, q, pool, price, quote, settled) =
        process_deposit_all_token_types-Price m rt program pool_tokens maximum_a maximum_b accounts
          w w' acc read h in
      let same : s' ≡ s = cc (stored, pool.stored) in
      let priced =
        Price-same pool_tokens acc w s token_a token_b mint results a b c (rw same at price) in
      let charged =
        paid_for pool_tokens maximum_a maximum_b s results q
          (mint.supply ≤ pool_tokens * token_a.amount × mint.supply ≤ pool_tokens * token_b.amount)
          worth (rw same at quote) in
      let (share_a, share_b) =
        tokens_in-ge-share m laws s.swap_curve.calculator pool_tokens mint.supply token_a.amount
          token_b.amount results (rw same at pool.allowed) charged priced in
      (
        q,
        quote.given,
        quote.slippage_a,
        quote.slippage_b,
        rw quote.taken_a share_a,
        rw quote.taken_b share_b,
        rw same at settled,
      )
