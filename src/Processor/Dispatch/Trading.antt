-- ===== src/Processor/Dispatch/Trading.antt =====
-- Trading leaves the pools as they are (program/src/processor.rs).
use solana_psm.Common.{◌≡◌, refl, ap, ◌∙◌, Option, List, ok}
use solana_psm.Math.{SplMath}
use solana_psm.Constraints.{SwapConstraints, ExtensionTypes}
use solana_psm.Runtime.{Pubkey, Runtime, World, AccountInfo}
use solana_psm.Runtime.Isolation.{IsIsolated, SameAccounts, Keeps}
use solana_psm.Instruction.{
  SwapInstruction, swap, deposit_all_token_types, withdraw_all_token_types,
  deposit_single_token_type_exact_amount_in, withdraw_single_token_type_exact_amount_out,
}
use solana_psm.Instruction as Instruction
use solana_psm.State.{SwapV1, unpack}
use solana_psm.Processor.Isolation.Swap.{Keeps-swap}
use solana_psm.Processor.Isolation.Deposits.{Keeps-deposit_all, Keeps-deposit_single}
use solana_psm.Processor.Isolation.Withdrawals.{Keeps-withdraw_all, Keeps-withdraw_single}
use solana_psm.Processor.Dispatch.{handle}

-- The instructions that move tokens.
pub data IsTrade : SwapInstruction → Type 0 where
  swapping : (i : Instruction.Swap) → IsTrade (swap i)
  depositing_all : (i : Instruction.DepositAllTokenTypes) → IsTrade (deposit_all_token_types i)
  withdrawing_all : (i : Instruction.WithdrawAllTokenTypes) → IsTrade (withdraw_all_token_types i)
  depositing_single :
      (i : Instruction.DepositSingleTokenTypeExactAmountIn)
      → IsTrade (deposit_single_token_type_exact_amount_in i)
  withdrawing_single :
      (i : Instruction.WithdrawSingleTokenTypeExactAmountOut)
      → IsTrade (withdraw_single_token_type_exact_amount_out i)

-- A run of trades that succeed, of any users on any pools, among which anything may happen that
-- leaves the accounts of the program as they are.
pub data Trades (m : SplMath) (rt : Runtime) (types : ExtensionTypes) (program : Pubkey)
    (constraints : Option SwapConstraints) : World → World → Type 0 where
  done : (w : World) → Trades m rt types program constraints w w
  trade :
      (w v w' : World) (i : SwapInstruction) (accounts : List AccountInfo)
      → IsTrade i
      → handle m rt types program accounts constraints i w ≡ ok (tt, v)
      → Trades m rt types program constraints v w'
      → Trades m rt types program constraints w w'
  elsewhere :
      (w v w' : World)
      → SameAccounts program w v
      → Trades m rt types program constraints v w'
      → Trades m rt types program constraints w w'

module _ (m : SplMath) (rt : Runtime) (types : ExtensionTypes) (program : Pubkey)
    (constraints : Option SwapConstraints) (isolated : IsIsolated rt program) where
  Keeps-trade :
      (i : SwapInstruction) (accounts : List AccountInfo)
      → IsTrade i
      → Keeps program (handle m rt types program accounts constraints i)
  unfolding handle
  Keeps-trade _ accounts (swapping i) =
      Keeps-swap m rt program isolated i.amount_in i.minimum_amount_out accounts
  Keeps-trade _ accounts (depositing_all i) =
      Keeps-deposit_all m rt program isolated i.pool_token_amount i.maximum_token_a_amount
        i.maximum_token_b_amount accounts
  Keeps-trade _ accounts (withdrawing_all i) =
      Keeps-withdraw_all m rt program isolated i.pool_token_amount i.minimum_token_a_amount
        i.minimum_token_b_amount accounts
  Keeps-trade _ accounts (depositing_single i) =
      Keeps-deposit_single m rt program isolated i.source_token_amount i.minimum_pool_token_amount
        accounts
  Keeps-trade _ accounts (withdrawing_single i) =
      Keeps-withdraw_single m rt program isolated i.destination_token_amount
        i.maximum_pool_token_amount accounts

  -- The owner and the data of an account of the program after trades.
  pub Trades-same :
      (w w' : World) → Trades m rt types program constraints w w' → SameAccounts program w w'
  Trades-same w _ (done _) k own = (own, refl)
  Trades-same w w' (trade _ v _ i accounts is_trade h rest) k own =
      let (owner, bytes) = (Keeps-trade i accounts is_trade).same w tt v h k own in
      let (owner', bytes') = Trades-same v w' rest k owner in (owner', bytes' ∙ bytes)
  Trades-same w w' (elsewhere _ v _ same rest) k own =
      let (owner, bytes) = same k own in
      let (owner', bytes') = Trades-same v w' rest k owner in (owner', bytes' ∙ bytes)

  -- However long a run of swaps, deposits and withdrawals that succeed is, of any users on any
  -- pools, a pool's account is read back as the same pool after it as before: its authority, its
  -- reserves, its pool mint, its fees and its curve do not change, and it remains the program's.
  -- (Other programs do not change the accounts of this one.)
  pub Trades-unpack :
      (w w' : World) (pool : Pubkey) (s : SwapV1)
      → (w pool).owner ≡ program
      → unpack rt (w pool).bytes ≡ ok s
      → Trades m rt types program constraints w w'
      → ((w' pool).owner ≡ program) × (unpack rt (w' pool).bytes ≡ ok s)
  Trades-unpack w w' pool s own stored trades =
      let (owner, bytes) = Trades-same w w' trades pool own in
      (owner, ap (unpack rt) bytes ∙ stored)
