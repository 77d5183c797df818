-- ===== src/Processor/Swap.antt =====
-- The handler of `Swap` (program/src/processor.rs).
pub mod Checks
pub mod Value
use solana_psm.Common.{
  ℕ, ◌+◌, Bool, true, false, not, ◌&&◌, ◌||◌, Option, none, some, List, [], ◌∷◌, ok, err, ◌==◌, ltb,
  if◌then◌else◌, checked_sub,
}
use solana_psm.Common
use solana_psm.Error.{SwapError, ProgramError, Res, from_swap_error}
use solana_psm.Math.{SplMath}
use solana_psm.Curve.Calculator.{TradeDirection, a_to_b, b_to_a}
use solana_psm.Curve.Base.{deposit_without_fees}
use solana_psm.Curve.Charging
use solana_psm.Curve.Charging.{SwapResult}
use solana_psm.Runtime.{Pubkey, Runtime, World, AccountInfo, TokenAccount, Mint}
use solana_psm.Runtime.Action.{
  Action, ◌>>=◌, ◌>>◌, pure, lift, read, fail_if, next, owner_of, data_of,
}
use solana_psm.State.{SwapV1, unpack}
use solana_psm.Processor.Tokens.{
  some_or, to_u64, unpack_token_account, unpack_mint, mint_of, authority_id,
  get_current_timestamp_opt,
}
use solana_psm.Processor.Calls.{token_transfer}
use solana_psm.Processor.OwnerFee.{Minting, first, pay_host, pay_pool}

-- The accounts of the instruction, in order; `rest` may begin with a host fee account.
pub record SwapAccounts : Type 0 where
  pub swap_info : AccountInfo
  pub authority_info : AccountInfo
  pub user_transfer_authority_info : AccountInfo
  pub source_info : AccountInfo
  pub swap_source_info : AccountInfo
  pub swap_destination_info : AccountInfo
  pub destination_info : AccountInfo
  pub pool_mint_info : AccountInfo
  pub pool_fee_account_info : AccountInfo
  pub source_token_mint_info : AccountInfo
  pub destination_token_mint_info : AccountInfo
  pub source_token_program_info : AccountInfo
  pub destination_token_program_info : AccountInfo
  pub pool_token_program_info : AccountInfo
  pub rest : List AccountInfo

unfoldable pub read_swap_accounts : List AccountInfo → Action SwapAccounts
read_swap_accounts accounts = do
  (swap_info, r1) ← next accounts
  (authority_info, r2) ← next r1
  (user_transfer_authority_info, r3) ← next r2
  (source_info, r4) ← next r3
  (swap_source_info, r5) ← next r4
  (swap_destination_info, r6) ← next r5
  (destination_info, r7) ← next r6
  (pool_mint_info, r8) ← next r7
  (pool_fee_account_info, r9) ← next r8
  (source_token_mint_info, r10) ← next r9
  (destination_token_mint_info, r11) ← next r10
  (source_token_program_info, r12) ← next r11
  (destination_token_program_info, r13) ← next r12
  (pool_token_program_info, r14) ← next r13
  pure (record {
    swap_info = swap_info;
    authority_info = authority_info;
    user_transfer_authority_info = user_transfer_authority_info;
    source_info = source_info;
    swap_source_info = swap_source_info;
    swap_destination_info = swap_destination_info;
    destination_info = destination_info;
    pool_mint_info = pool_mint_info;
    pool_fee_account_info = pool_fee_account_info;
    source_token_mint_info = source_token_mint_info;
    destination_token_mint_info = destination_token_mint_info;
    source_token_program_info = source_token_program_info;
    destination_token_program_info = destination_token_program_info;
    pool_token_program_info = pool_token_program_info;
    rest = r14;
  })

abbrev is_reserve : SwapV1 → AccountInfo → Bool
is_reserve s info = info.key == s.token_a || info.key == s.token_b

-- The checks of the accounts' keys against the pool, after the address of the authority.
unfoldable pub check_swap_keys : SwapAccounts → SwapV1 → Pubkey → Res (Unit {0})
check_swap_keys acc s authority =
    if not (acc.authority_info.key == authority)
    then err (from_swap_error SwapError.invalid_program_address)
    else if not (is_reserve s acc.swap_source_info)
    then err (from_swap_error SwapError.incorrect_swap_account)
    else if not (is_reserve s acc.swap_destination_info)
    then err (from_swap_error SwapError.incorrect_swap_account)
    else if acc.swap_source_info.key == acc.swap_destination_info.key
    then err (from_swap_error SwapError.invalid_input)
    else if acc.swap_source_info.key == acc.source_info.key
    then err (from_swap_error SwapError.invalid_input)
    else if acc.swap_destination_info.key == acc.destination_info.key
    then err (from_swap_error SwapError.invalid_input)
    else if not (acc.pool_mint_info.key == s.pool_mint)
    then err (from_swap_error SwapError.incorrect_pool_mint)
    else if not (acc.pool_fee_account_info.key == s.pool_fee_account)
    then err (from_swap_error SwapError.incorrect_fee_account)
    else if not (acc.pool_token_program_info.key == s.token_program_id)
    then err (from_swap_error SwapError.incorrect_token_program_id)
    else ok tt

abbrev pub direction_of : SwapAccounts → SwapV1 → TradeDirection
direction_of acc s = if acc.swap_source_info.key == s.token_a then a_to_b else b_to_a

-- The reserves of A and of B after the swap, without the owner fee, which came in on the source's
-- side.
unfoldable pub reserves_less_fee : TradeDirection → SwapResult → Res (ℕ × ℕ)
reserves_less_fee a_to_b r =
    Common.◌>>=◌
      (some_or (checked_sub r.new_swap_source_amount r.owner_fee) SwapError.calculation_failure)
      (λ a. ok (a, r.new_swap_destination_amount))
reserves_less_fee b_to_a r =
    Common.◌>>=◌
      (some_or (checked_sub r.new_swap_source_amount r.owner_fee) SwapError.calculation_failure)
      (λ b. ok (r.new_swap_destination_amount, b))

-- What the handler works out before it moves tokens: the result of the curve, and the amounts and
-- decimals of the two transfers.
pub record Quote : Type 0 where
  pub state : SwapV1
  pub direction : TradeDirection
  pub pool_mint : Mint
  pub result : SwapResult
  pub source_amount : ℕ
  pub source_decimals : ℕ
  pub destination_amount : ℕ
  pub destination_decimals : ℕ

abbrev pub minting : SwapAccounts → Minting
minting acc = record {
  swap = acc.swap_info.key;
  token_program = acc.pool_token_program_info.key;
  pool_mint = acc.pool_mint_info.key;
  authority = acc.authority_info.key;
}

module _ (m : SplMath) (rt : Runtime) where
  -- The owner's fee, as pool tokens.
  unfoldable pub pay_owner :
      SwapAccounts → SwapV1 → TradeDirection → Mint → SwapResult → Action (Unit {0})
  pay_owner acc s direction pool_mint result = do
    reserves ← lift (reserves_less_fee direction result)
    timestamp ← lift (get_current_timestamp_opt rt s)
    pool_token_amount ← lift (
        some_or
          (deposit_without_fees m s.swap_curve.calculator result.owner_fee reserves.0 reserves.1
            pool_mint.supply direction timestamp)
          SwapError.fee_calculation_failure)
    (if ltb 0 pool_token_amount
        then (do
          left ← pay_host rt (minting acc) s (first acc.rest) pool_token_amount
          pay_pool rt (minting acc) s acc.pool_fee_account_info (ltb 0 left) left)
        else pure tt)

  -- The pool, once its account and the given keys have been checked.
  unfoldable pub check_swap : Pubkey → SwapAccounts → Action SwapV1
  check_swap program_id acc = do
    swap_owner ← owner_of acc.swap_info
    fail_if (not (swap_owner == program_id)) ProgramError.incorrect_program_id
    swap_data ← data_of acc.swap_info
    s ← lift (unpack rt swap_data)
    authority ← lift (authority_id rt program_id acc.swap_info.key s.bump_seed)
    lift (check_swap_keys acc s authority)
    pure s

  -- The pool mint, and what the curve makes of the offer and of the reserves.
  unfoldable pub exchange : ℕ → SwapAccounts → SwapV1 → Action (Mint × SwapResult)
  exchange amount_in acc s = do
    source_account ←
        read (unpack_token_account rt acc.swap_source_info (some acc.source_token_mint_info.key))
    dest_account ← read (
        unpack_token_account rt acc.swap_destination_info
          (some acc.destination_token_mint_info.key))
    pool_mint ← read (unpack_mint rt acc.pool_mint_info)
    timestamp ← lift (get_current_timestamp_opt rt s)
    result ← lift (
        some_or
          (Charging.swap m s.swap_curve amount_in source_account.amount dest_account.amount
            (direction_of acc s) s.fees timestamp)
          SwapError.zero_trading_tokens)
    pure (pool_mint, result)

  -- The amounts and the decimals of the two transfers.
  unfoldable pub quote_of : ℕ → SwapAccounts → SwapV1 → Mint → SwapResult → Action Quote
  quote_of minimum_amount_out acc s pool_mint result = do
    source_amount ← lift (to_u64 result.source_amount_swapped)
    source_mint ← read (mint_of rt acc.source_token_mint_info)
    destination_mint ← read (mint_of rt acc.destination_token_mint_info)
    amount_out ← lift (to_u64 result.destination_amount_swapped)
    fail_if (ltb amount_out minimum_amount_out) (from_swap_error SwapError.exceeded_slippage)
    pure (record {
      state = s;
      direction = direction_of acc s;
      pool_mint = pool_mint;
      result = result;
      source_amount = source_amount;
      source_decimals = source_mint.base.decimals;
      destination_amount = amount_out;
      destination_decimals = destination_mint.base.decimals;
    })

  -- The tokens in, the owner's fee, the tokens out.
  unfoldable pub settle_swap : SwapAccounts → Quote → Action (Unit {0})
  settle_swap acc q = do
    token_transfer rt acc.swap_info.key acc.source_token_program_info.key acc.source_info.key
        acc.source_token_mint_info.key acc.swap_source_info.key acc.user_transfer_authority_info.key
        q.state.bump_seed q.source_amount q.source_decimals
    (if ltb 0 q.result.owner_fee
        then pay_owner acc q.state q.direction q.pool_mint q.result
        else pure tt)
    token_transfer rt acc.swap_info.key acc.destination_token_program_info.key
        acc.swap_destination_info.key acc.destination_token_mint_info.key acc.destination_info.key
        acc.authority_info.key q.state.bump_seed q.destination_amount q.destination_decimals

  unfoldable pub process_swap : Pubkey → ℕ → ℕ → List AccountInfo → Action (Unit {0})
  process_swap program_id amount_in minimum_amount_out accounts = do
    acc ← read_swap_accounts accounts
    s ← check_swap program_id acc
    (pool_mint, result) ← exchange amount_in acc s
    q ← quote_of minimum_amount_out acc s pool_mint result
    settle_swap acc q
