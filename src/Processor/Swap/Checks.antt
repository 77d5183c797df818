-- ===== src/Processor/Swap/Checks.antt =====
-- What a swap that is settled has passed (program/src/processor.rs).
use solana_psm.Common.{
  ℕ, ◌≤◌, ◌≡◌, sym, ap, ◌∙◌, ◌≢◌, ◌⊎◌, ok, List, Option, some, not, ◌==◌, ltb, arith,
}
use solana_psm.Error.{SwapError}
use solana_psm.Math.{SplMath}
use solana_psm.Curve.Calculator.{TradeDirection, a_to_b, b_to_a}
use solana_psm.Curve.Charging
use solana_psm.Curve.Charging.{SwapResult}
use solana_psm.Runtime.{Pubkey, Runtime, World, AccountInfo, TokenAccount, Mint}
use solana_psm.Runtime.Action.{fail_if-eq-ok, lift-eq-ok, pure-eq-ok, >>=-eq-ok_same, >>=-of_ok}
use solana_psm.State.{SwapV1, unpack}
use solana_psm.Processor.Tokens.{
  some_or, to_u64, unpack_token_account, unpack_mint, unpack_mint_with_extensions, authority_id,
  get_current_timestamp_opt,
}
use solana_psm.Processor.Tokens.Inversion.{some_or-eq-ok, to_u64-eq-ok}
use solana_psm.Processor.Swap.{
  SwapAccounts, Quote, check_swap_keys, direction_of, check_swap, exchange, quote_of,
  read_swap_accounts, settle_swap, process_swap,
}

-- The source and the destination are the two reserves of the pool, one each, and neither is the
-- user's account of that side.
pub record Reserves (acc : SwapAccounts) (s : SwapV1) (direction : TradeDirection) : Type 0 where
  pub apart : acc.swap_source_info.key ≢ acc.swap_destination_info.key
  pub source_apart : acc.swap_source_info.key ≢ acc.source_info.key
  pub destination_apart : acc.swap_destination_info.key ≢ acc.destination_info.key
  pub sides :
      ((direction ≡ a_to_b)
        × (acc.swap_source_info.key ≡ s.token_a)
        × (acc.swap_destination_info.key ≡ s.token_b))
      ⊎ ((direction ≡ b_to_a)
          × (acc.swap_source_info.key ≡ s.token_b)
          × (acc.swap_destination_info.key ≡ s.token_a))
  pub mint : acc.pool_mint_info.key ≡ s.pool_mint
  pub fee_account : acc.pool_fee_account_info.key ≡ s.pool_fee_account
  pub program : acc.pool_token_program_info.key ≡ s.token_program_id

check_swap_keys-Reserves :
    (acc : SwapAccounts) (s : SwapV1) (authority : Pubkey)
    → check_swap_keys acc s authority ≡ ok tt
    → (acc.authority_info.key ≡ authority) × Reserves acc s (direction_of acc s)
unfolding check_swap_keys
check_swap_keys-Reserves acc s authority h = (
  ground arith,
  record {
    apart = ground arith;
    source_apart = ground arith;
    destination_apart = ground arith;
    sides = ground arith;
    mint = ground arith;
    fee_account = ground arith;
    program = ground arith;
  },
)

-- The pool that a swap is checked against.
pub record Pool (rt : Runtime) (program : Pubkey) (acc : SwapAccounts) (w : World) (s : SwapV1)
    : Type 0 where
  pub owned : (w acc.swap_info.key).owner ≡ program
  pub stored : unpack rt (w acc.swap_info.key).bytes ≡ ok s
  pub authority : authority_id rt program acc.swap_info.key s.bump_seed ≡ ok acc.authority_info.key
  pub reserves : Reserves acc s (direction_of acc s)

-- What the curve was asked, and what it answered.
pub record Exchange (m : SplMath) (rt : Runtime) (amount_in : ℕ) (acc : SwapAccounts) (w : World)
    (s : SwapV1) (result : SwapResult) : Type 0 where
  pub source : TokenAccount
  pub destination : TokenAccount
  pub timestamp : Option ℕ
  pub source_read :
      unpack_token_account rt acc.swap_source_info (some acc.source_token_mint_info.key) w
      ≡ ok source
  pub destination_read :
      unpack_token_account rt acc.swap_destination_info (some acc.destination_token_mint_info.key) w
      ≡ ok destination
  pub clock : get_current_timestamp_opt rt s ≡ ok timestamp
  pub exchanged :
      Charging.swap m s.swap_curve amount_in source.amount destination.amount
        (direction_of acc s)
        s.fees
        timestamp
      ≡ ok result

-- The quote of a result.
pub record IsQuote (minimum_amount_out : ℕ) (s : SwapV1) (result : SwapResult) (q : Quote)
    : Type 0 where
  pub state : q.state ≡ s
  pub same_result : q.result ≡ result
  pub taken : q.source_amount ≡ result.source_amount_swapped
  pub given : q.destination_amount ≡ result.destination_amount_swapped
  pub slippage : minimum_amount_out ≤ result.destination_amount_swapped

module _ (m : SplMath) (rt : Runtime) where
  pub check_swap-Pool :
      (program : Pubkey) (acc : SwapAccounts) (w : World) (s : SwapV1) (w' : World)
      → check_swap m rt program acc w ≡ ok (s, w')
      → (w' ≡ w) × Pool rt program acc w s
  unfolding check_swap
  check_swap-Pool program acc w s w' h =
      let (owned, r1) = fail_if-eq-ok (not ((w acc.swap_info.key).owner == program)) _ _ w h in
      let (s', stored, r2) = lift-eq-ok (unpack rt (w acc.swap_info.key).bytes) _ w r1 in
      let (key, authority, r3) =
        lift-eq-ok (authority_id rt program acc.swap_info.key s'.bump_seed) _ w r2 in
      let (_, keys, r4) = lift-eq-ok (check_swap_keys acc s' key) _ w r3 in
      let (same_key, reserves) = check_swap_keys-Reserves acc s' key keys in
      let (same, after) = pure-eq-ok s' s w w' r4 in
      let pool : Pool rt program acc w s' = record {
        owned = ground (arith, owned);
        stored = stored;
        authority = authority ∙ ap ok (sym same_key);
        reserves = reserves;
      } in
      (after, rw (← same) pool)

  pub exchange-Exchange :
      (amount_in : ℕ) (acc : SwapAccounts) (s : SwapV1) (w : World) (mint : Mint)
      (result : SwapResult) (w' : World)
      → exchange m rt amount_in acc s w ≡ ok ((mint, result), w')
      → (w' ≡ w) × Exchange m rt amount_in acc w s result
  unfolding exchange
  exchange-Exchange amount_in acc s w mint result w' h =
      let (source, source_read, r1) =
        lift-eq-ok
          (unpack_token_account rt acc.swap_source_info (some acc.source_token_mint_info.key) w) _ w
          h in
      let (destination, destination_read, r2) =
        lift-eq-ok
          (unpack_token_account rt acc.swap_destination_info
            (some acc.destination_token_mint_info.key) w)
          _ w r1 in
      let (pool_mint, _, r3) = lift-eq-ok (unpack_mint rt acc.pool_mint_info w) _ w r2 in
      let (timestamp, clock, r4) = lift-eq-ok (get_current_timestamp_opt rt s) _ w r3 in
      let (found, exchanged, r5) =
        lift-eq-ok
          (some_or
            (Charging.swap m s.swap_curve amount_in source.amount destination.amount
              (direction_of acc s) s.fees timestamp)
            SwapError.zero_trading_tokens)
          _ w r4 in
      let (same, after) = pure-eq-ok (pool_mint, found) (mint, result) w w' r5 in
      (
        after,
        record {
          source = source;
          destination = destination;
          timestamp = timestamp;
          source_read = source_read;
          destination_read = destination_read;
          clock = clock;
          exchanged = some_or-eq-ok _ _ exchanged ∙ ap (λ p. ok p.1) same;
        },
      )

  pub quote_of-IsQuote :
      (minimum_amount_out : ℕ) (acc : SwapAccounts) (s : SwapV1) (mint : Mint) (result : SwapResult)
      (w : World) (q : Quote) (w' : World)
      → quote_of m rt minimum_amount_out acc s mint result w ≡ ok (q, w')
      → (w' ≡ w) × IsQuote minimum_amount_out s result q
  unfolding quote_of
  quote_of-IsQuote minimum_amount_out acc s mint result w q w' h =
      let (taken, taken_fits, r1) = lift-eq-ok (to_u64 result.source_amount_swapped) _ w h in
      let (source_mint, _, r2) =
        lift-eq-ok
          (unpack_mint_with_extensions rt (w acc.source_token_mint_info.key).bytes
            (w acc.source_token_mint_info.key).owner)
          _ w r1 in
      let (destination_mint, _, r3) =
        lift-eq-ok
          (unpack_mint_with_extensions rt (w acc.destination_token_mint_info.key).bytes
            (w acc.destination_token_mint_info.key).owner)
          _ w r2 in
      let (given, given_fits, r4) = lift-eq-ok (to_u64 result.destination_amount_swapped) _ w r3 in
      let (enough, r5) = fail_if-eq-ok (ltb given minimum_amount_out) _ _ w r4 in
      let (same, after) = pure-eq-ok _ q w w' r5 in
      let exact = to_u64-eq-ok result.destination_amount_swapped given given_fits in
      (
        after,
        record {
          state = ap (λ p. p.state) (sym same);
          same_result = ap (λ p. p.result) (sym same);
          taken =
              ap (λ p. p.source_amount) (sym same)
              ∙ to_u64-eq-ok result.source_amount_swapped taken taken_fits;
          given = ap (λ p. p.destination_amount) (sym same) ∙ exact;
          slippage = ground (arith, enough, exact);
        },
      )

  -- A swap that succeeds ran on a pool of the program whose authority, reserves, pool mint, fee
  -- account and token program are the given ones, with two different reserves, one of each token,
  -- that are not the user's accounts; the curve exchanged the offer against the amounts in the
  -- reserves; what is moved is what the curve answered, and at least the minimum is given out; and
  -- the tokens are moved after all this.
  pub process_swap-Exchange :
      (program : Pubkey) (amount_in minimum_amount_out : ℕ) (accounts : List AccountInfo)
      (w w' : World) (acc : SwapAccounts)
      → read_swap_accounts accounts w ≡ ok (acc, w)
      → process_swap m rt program amount_in minimum_amount_out accounts w ≡ ok (tt, w')
      → (s : SwapV1) × (result : SwapResult) × (q : Quote) × Pool rt program acc w s
        × Exchange m rt amount_in acc w s result
        × IsQuote minimum_amount_out s result q
        × (settle_swap m rt acc q w ≡ ok (tt, w'))
  unfolding process_swap
  process_swap-Exchange program amount_in minimum_amount_out accounts w w' acc read h =
      let (s, checked, r1) =
        >>=-eq-ok_same (check_swap m rt program acc) _ w
          (λ a v e. (check_swap-Pool program acc w a v e).0)
          (sym (>>=-of_ok (read_swap_accounts accounts) _ w acc w read) ∙ h) in
      let ((mint, result), exchanged, r2) =
        >>=-eq-ok_same (exchange m rt amount_in acc s) _ w
          (λ a v e. (exchange-Exchange amount_in acc s w a.0 a.1 v e).0) r1 in
      let (q, quoted, r3) =
        >>=-eq-ok_same (quote_of m rt minimum_amount_out acc s mint result) _ w
          (λ a v e. (quote_of-IsQuote minimum_amount_out acc s mint result w a v e).0) r2 in
      (
        s,
        result,
        q,
        (check_swap-Pool program acc w s w checked).1,
        (exchange-Exchange amount_in acc s w mint result w exchanged).1,
        (quote_of-IsQuote minimum_amount_out acc s mint result w q w quoted).1,
        r3,
      )
