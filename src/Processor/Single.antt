-- ===== src/Processor/Single.antt =====
-- What the deposit and the withdrawal of one token share (program/src/processor.rs).
use solana_psm.Common.{
  ℕ, Bool, true, false, Option, none, some, List, [], ◌∷◌, ok, err, ◌==◌, ltb, if◌then◌else◌,
}
use solana_psm.Common
use solana_psm.Error.{SwapError, Res, from_swap_error}
use solana_psm.Math.{SplMath}
use solana_psm.Curve.Calculator.{TradeDirection, a_to_b, b_to_a}
use solana_psm.Curve.Base.{deposit_without_fees}
use solana_psm.Runtime.{Runtime, AccountInfo, TokenAccount}
use solana_psm.State.{SwapV1}
use solana_psm.Processor.Tokens.{some_or, get_current_timestamp_opt}

-- What is left of the iterator after `account_info_iter.next()`.
abbrev pub rest_of : List AccountInfo → List AccountInfo
rest_of [] = []
rest_of (info ∷ rest) = rest

-- The pool, its reserves, and the side of the user's token.
pub record Sides : Type 0 where
  pub state : SwapV1
  pub token_a : TokenAccount
  pub token_b : TokenAccount
  pub direction : TradeDirection

-- The side is that of the reserve with the mint of the user's account.
unfoldable pub side_of : (user token_a token_b : TokenAccount) → Res TradeDirection
side_of user token_a token_b =
    if user.mint == token_a.mint
    then ok a_to_b
    else if user.mint == token_b.mint
    then ok b_to_a
    else err (from_swap_error SwapError.incorrect_swap_account)

-- The user's account is checked against the reserve of its side only.
abbrev pub user_a : TradeDirection → AccountInfo → Option AccountInfo
user_a a_to_b info = some info
user_a b_to_a info = none

abbrev pub user_b : TradeDirection → AccountInfo → Option AccountInfo
user_b a_to_b info = none
user_b b_to_a info = some info

-- The reserves, with that of one side replaced.
abbrev pub with_reserve : TradeDirection → ℕ → (a b : ℕ) → ℕ × ℕ
with_reserve a_to_b reserve a b = (reserve, b)
with_reserve b_to_a reserve a b = (a, reserve)

module _ (m : SplMath) (rt : Runtime) where
  -- The owner's fee in pool tokens.
  unfoldable pub owner_fee_in_pool_tokens :
      SwapV1 → TradeDirection → (owner_fee a b supply : ℕ) → Res ℕ
  owner_fee_in_pool_tokens s direction owner_fee a b supply =
      Common.◌>>=◌ (get_current_timestamp_opt rt s) (λ timestamp.
        some_or
          (deposit_without_fees m s.swap_curve.calculator owner_fee a b supply direction timestamp)
          SwapError.fee_calculation_failure)
