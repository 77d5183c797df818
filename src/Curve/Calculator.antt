-- ===== src/Curve/Calculator.antt =====
-- The types that the curves share (program/src/curve/calculator.rs).
use solana_psm.Common.{ℕ, Outcome, Calc, ok, nothing, ◌>>◌, fail_if, ◌==◌, if◌then◌else◌}
use solana_psm.Error.{SwapError}

abbrev pub initial_swap_pool_amount : ℕ
initial_swap_pool_amount = 1_000_000_000

abbrev pub tokens_in_pool : ℕ
tokens_in_pool = 2

unfoldable pub map_zero_to_none : ℕ → Calc ℕ
map_zero_to_none x = if x == 0 then nothing else ok x

pub data TradeDirection : Type 0 where
  a_to_b : TradeDirection
  b_to_a : TradeDirection

pub data RoundDirection : Type 0 where
  floor : RoundDirection
  ceiling : RoundDirection

unfoldable pub opposite : TradeDirection → TradeDirection
opposite a_to_b = b_to_a
opposite b_to_a = a_to_b

-- `match trade_direction { AtoB => a, BtoA => b }`
abbrev pub by_direction {ℓ} : {A : Type ℓ} → TradeDirection → A → A → A
by_direction a_to_b a b = a
by_direction b_to_a a b = b

pub record SwapWithoutFeesResult : Type 0 where
  pub source_amount_swapped : ℕ
  pub destination_amount_swapped : ℕ

pub record TradingTokenResult : Type 0 where
  pub token_a_amount : ℕ
  pub token_b_amount : ℕ

-- The default `validate_supply` of the trait `CurveCalculator`.
unfoldable pub validate_supply : ℕ → ℕ → Outcome SwapError (Unit {0})
validate_supply token_a_amount token_b_amount = do
  fail_if (token_a_amount == 0) SwapError.empty_supply
  fail_if (token_b_amount == 0) SwapError.empty_supply

-- The `validate_supply` of every curve but the constant product.
unfoldable pub validate_supply_a : ℕ → ℕ → Outcome SwapError (Unit {0})
validate_supply_a token_a_amount token_b_amount =
    fail_if (token_a_amount == 0) SwapError.empty_supply
