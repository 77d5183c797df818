-- ===== src/Curve/RedemptionRate.antt =====
-- The redemption rate curve (program/src/curve/redemption_rate.rs): the price of token B grows by
-- the rate `ssr` each second from `chi`, its value at the time `rho`.
pub mod Power
pub mod Fuel
pub mod Rate
pub mod Updates
use solana_psm.Common.{
  ℕ, zero, suc, ◌+◌, ◌-◌, ◌*◌, ◌/◌, ◌%◌, Bool, true, false, ◌&&◌, not, Option, none, some, Outcome,
  Calc, ok, err, nothing, ◌>>=◌, ◌>>◌, ok_or, fail_if, ltb, ◌==◌, if◌then◌else◌, checked_sub,
}
use solana_psm.Error.{SwapError, ProgramError, Res, from_swap_error}
use solana_psm.Math.{SplMath}
use solana_psm.Curve.Calculator.{
  TradeDirection, RoundDirection, floor, SwapWithoutFeesResult, TradingTokenResult,
}
use solana_psm.Curve.Priced
use solana_psm.Curve.Priced.{ray}

pub record RedemptionRateCurve : Type 0 where
  pub max_ssr : ℕ
  pub ssr : ℕ
  pub rho : ℕ
  pub chi : ℕ

-- `timestamp?`
abbrev pub from_option : {A : Type 0} → Option A → Calc A
from_option (some a) = ok a
from_option none = nothing

module _ (m : SplMath) where
  open m use {u256_checked_add, u256_checked_mul, u256_checked_div, u256_mul, u256_div, u256_rem}

  -- `x * y`, rounded to the nearest multiple of 1 / RAY.
  unfoldable pub rmul : ℕ → ℕ → ℕ → Calc ℕ
  rmul half x y = do
    xy ← u256_checked_mul x y
    xy_round ← u256_checked_add xy half
    u256_div xy_round ray

  -- The `while` loop of `_rpow`, on fuel. The loop ends when `n` is 0, which `fuel` halvings reach
  -- if `n < 2 ^ fuel`.
  unfoldable pub rpow_loop : ℕ → ℕ → ℕ → ℕ → ℕ → Calc ℕ
  rpow_loop zero half n x z = ok z
  rpow_loop (suc fuel) half n x z =
      let round : Calc ℕ = do
        x' ← rmul half x x
        n_mod_2 ← u256_rem n 2
        z' ← (if n_mod_2 == 1 then rmul half z x' else ok z)
        n' ← u256_div n 2
        rpow_loop fuel half n' x' z'
      in if n == 0 then ok z else round

  -- `_rpow`: the exponent is a `u128`, so 128 halvings are enough.
  unfoldable pub rpow : ℕ → ℕ → Calc ℕ
  rpow x n = if x == 0 then (if n == 0 then ok ray else ok 0) else do
    half ← u256_div ray 2
    n_mod_2 ← u256_rem n 2
    n' ← u256_div n 2
    rpow_loop 128 half n' x (if n_mod_2 == 0 then ray else x)

  unfoldable pub get_conversion_rate : RedemptionRateCurve → ℕ → Calc ℕ
  get_conversion_rate c timestamp = if timestamp == c.rho then ok c.chi else do
    duration ← checked_sub timestamp c.rho
    power ← rpow c.ssr duration
    product ← u256_mul power c.chi
    u256_div product ray

  -- The greatest `chi` that `max_ssr` allows at the time `rho`.
  unfoldable pub chi_limit : RedemptionRateCurve → ℕ → Res ℕ
  chi_limit c rho = do
    duration ← ok_or (checked_sub rho c.rho) ProgramError.arithmetic_overflow
    power ← ok_or (rpow c.max_ssr duration) (from_swap_error SwapError.calculation_failure)
    product ← ok_or (u256_checked_mul power c.chi) ProgramError.arithmetic_overflow
    ok_or (u256_checked_div product ray) ProgramError.arithmetic_overflow

  -- The checks of an update that is not the first.
  unfoldable pub check_update : RedemptionRateCurve → ℕ → ℕ → Res (Unit {0})
  check_update c rho chi = do
    fail_if (ltb rho c.rho) (from_swap_error SwapError.invalid_rho)
    fail_if (ltb chi c.chi) (from_swap_error SwapError.invalid_chi)
    (if c.max_ssr == 0 then ok tt else do
      chi_max ← chi_limit c rho
      fail_if (ltb chi_max chi) (from_swap_error SwapError.invalid_chi))

  unfoldable pub set_rates : RedemptionRateCurve → ℕ → ℕ → ℕ → ℕ → Res RedemptionRateCurve
  set_rates c ssr rho chi current_timestamp = do
    fail_if (ltb current_timestamp rho) (from_swap_error SwapError.invalid_rho)
    fail_if (ltb ssr ray) (from_swap_error SwapError.invalid_ssr)
    fail_if (not (c.max_ssr == 0) && ltb c.max_ssr ssr) (from_swap_error SwapError.invalid_ssr)
    (if c.rho == 0 then ok tt else check_update c rho chi)
    ok (record { max_ssr = c.max_ssr; ssr = ssr; rho = rho; chi = chi })

  unfoldable pub swap_without_fees :
      RedemptionRateCurve → ℕ → TradeDirection → Option ℕ → Calc SwapWithoutFeesResult
  swap_without_fees c source_amount trade_direction timestamp = do
    now ← from_option timestamp
    token_b_price ← get_conversion_rate c now
    Priced.swap_at_price m token_b_price source_amount trade_direction

  unfoldable pub deposit_single_token_type :
      RedemptionRateCurve → ℕ → ℕ → ℕ → ℕ → TradeDirection → Option ℕ → Calc ℕ
  deposit_single_token_type c source_amount a b pool_supply trade_direction timestamp = do
    now ← from_option timestamp
    token_b_price ← get_conversion_rate c now
    Priced.trading_tokens_to_pool_tokens m token_b_price source_amount a b pool_supply
        trade_direction floor

  unfoldable pub withdraw_single_token_type_exact_out :
      RedemptionRateCurve → ℕ → ℕ → ℕ → ℕ → TradeDirection → RoundDirection → Option ℕ → Calc ℕ
  withdraw_single_token_type_exact_out c source_amount a b pool_supply trade_direction
        round_direction timestamp =
      do
        now ← from_option timestamp
        token_b_price ← get_conversion_rate c now
        Priced.trading_tokens_to_pool_tokens m token_b_price source_amount a b pool_supply
            trade_direction round_direction

  unfoldable pub validate : RedemptionRateCurve → Option ℕ → Outcome SwapError (Unit {0})
  validate c timestamp = do
    now ← ok_or (from_option timestamp) SwapError.missing_timestamp
    token_b_price ← ok_or (get_conversion_rate c now) SwapError.calculation_failure
    fail_if (token_b_price == 0) SwapError.invalid_curve

  unfoldable pub normalized_value : RedemptionRateCurve → ℕ → ℕ → Option ℕ → Calc ℕ
  normalized_value c swap_token_a_amount swap_token_b_amount timestamp = do
    now ← from_option timestamp
    token_b_price ← get_conversion_rate c now
    Priced.normalized_value_at m token_b_price swap_token_a_amount swap_token_b_amount
