-- ===== src/Fees.antt =====
-- Swap fees (program/src/curve/fees.rs): the fee of an amount, its inverse, the validation of fee
-- fractions, and the 64 bytes of a packed `Fees`.
pub mod Amount
pub mod Limits
pub mod Packing
use solana_psm.Common.{ℕ, ◌<◌, ◌||◌, ◌&&◌, List, ◌++◌, Outcome, Calc, ok, err, nothing, ◌>>=◌, ◌>>◌}
use solana_psm.Common.{leb, ◌==◌, if◌then◌else◌, u64_mod}
use solana_psm.Common.{checked_add, checked_sub, checked_mul, checked_div}
use solana_psm.Common.Bytes.{to_le_bytes, from_le_bytes, split_at, write_front}
use solana_psm.Error.{SwapError, ProgramError, Res}

-- Numerators and denominators are `u64`.
pub record Fees : Type 0 where
  pub trade_fee_numerator : ℕ
  pub trade_fee_denominator : ℕ
  pub owner_trade_fee_numerator : ℕ
  pub owner_trade_fee_denominator : ℕ
  pub owner_withdraw_fee_numerator : ℕ
  pub owner_withdraw_fee_denominator : ℕ
  pub host_fee_numerator : ℕ
  pub host_fee_denominator : ℕ

-- The range of the Rust fields.
pub record IsFees (f : Fees) : Type 0 where
  pub trade_numerator : f.trade_fee_numerator < u64_mod
  pub trade_denominator : f.trade_fee_denominator < u64_mod
  pub owner_trade_numerator : f.owner_trade_fee_numerator < u64_mod
  pub owner_trade_denominator : f.owner_trade_fee_denominator < u64_mod
  pub owner_withdraw_numerator : f.owner_withdraw_fee_numerator < u64_mod
  pub owner_withdraw_denominator : f.owner_withdraw_fee_denominator < u64_mod
  pub host_numerator : f.host_fee_numerator < u64_mod
  pub host_denominator : f.host_fee_denominator < u64_mod

-- The minimum fee is one token.
unfoldable pub calculate_fee : ℕ → ℕ → ℕ → Calc ℕ
calculate_fee token_amount fee_numerator fee_denominator =
    if fee_numerator == 0 || token_amount == 0 then ok 0 else do
      product ← checked_mul token_amount fee_numerator
      fee ← checked_div product fee_denominator
      if fee == 0 then ok 1 else ok fee

unfoldable pub ceil_div : ℕ → ℕ → Calc ℕ
ceil_div dividend divisor = do
  sum ← checked_add dividend divisor
  numerator ← checked_sub sum 1
  checked_div numerator divisor

unfoldable pub pre_fee_amount : ℕ → ℕ → ℕ → Calc ℕ
pre_fee_amount post_fee_amount fee_numerator fee_denominator =
    if fee_numerator == 0 || fee_denominator == 0
    then ok post_fee_amount
    else if leb fee_denominator fee_numerator
    then nothing
    else if post_fee_amount == 0
    then ok 0
    else do
      numerator ← checked_mul post_fee_amount fee_denominator
      denominator ← checked_sub fee_denominator fee_numerator
      ceil_div numerator denominator

unfoldable pub validate_fraction : ℕ → ℕ → Outcome SwapError (Unit {0})
validate_fraction numerator denominator =
    if denominator == 0 && numerator == 0
    then ok tt
    else if leb denominator numerator
    then err SwapError.invalid_fee
    else ok tt

unfoldable pub owner_withdraw_fee : Fees → ℕ → Calc ℕ
owner_withdraw_fee f pool_tokens =
    calculate_fee pool_tokens f.owner_withdraw_fee_numerator f.owner_withdraw_fee_denominator

unfoldable pub trading_fee : Fees → ℕ → Calc ℕ
trading_fee f trading_tokens =
    calculate_fee trading_tokens f.trade_fee_numerator f.trade_fee_denominator

unfoldable pub owner_trading_fee : Fees → ℕ → Calc ℕ
owner_trading_fee f trading_tokens =
    calculate_fee trading_tokens f.owner_trade_fee_numerator f.owner_trade_fee_denominator

unfoldable pub host_fee : Fees → ℕ → Calc ℕ
host_fee f owner_fee = calculate_fee owner_fee f.host_fee_numerator f.host_fee_denominator

unfoldable pub pre_trading_fee_amount : Fees → ℕ → Calc ℕ
pre_trading_fee_amount f post_fee_amount =
    if f.trade_fee_numerator == 0 || f.trade_fee_denominator == 0
    then pre_fee_amount post_fee_amount f.owner_trade_fee_numerator f.owner_trade_fee_denominator
    else if f.owner_trade_fee_numerator == 0 || f.owner_trade_fee_denominator == 0
    then pre_fee_amount post_fee_amount f.trade_fee_numerator f.trade_fee_denominator
    else do
      trade ← checked_mul f.trade_fee_numerator f.owner_trade_fee_denominator
      owner ← checked_mul f.owner_trade_fee_numerator f.trade_fee_denominator
      numerator ← checked_add trade owner
      denominator ← checked_mul f.trade_fee_denominator f.owner_trade_fee_denominator
      pre_fee_amount post_fee_amount numerator denominator

unfoldable pub validate : Fees → Outcome SwapError (Unit {0})
validate f = do
  validate_fraction f.trade_fee_numerator f.trade_fee_denominator
  validate_fraction f.owner_trade_fee_numerator f.owner_trade_fee_denominator
  validate_fraction f.owner_withdraw_fee_numerator f.owner_withdraw_fee_denominator
  validate_fraction f.host_fee_numerator f.host_fee_denominator

-- The bytes that `pack_into_slice` writes.
unfoldable pub to_bytes : Fees → List ℕ
to_bytes f =
    to_le_bytes 8 f.trade_fee_numerator
    ++ (to_le_bytes 8 f.trade_fee_denominator
        ++ (to_le_bytes 8 f.owner_trade_fee_numerator
            ++ (to_le_bytes 8 f.owner_trade_fee_denominator
                ++ (to_le_bytes 8 f.owner_withdraw_fee_numerator
                    ++ (to_le_bytes 8 f.owner_withdraw_fee_denominator
                        ++ (to_le_bytes 8 f.host_fee_numerator
                            ++ to_le_bytes 8 f.host_fee_denominator))))))

unfoldable pub pack_into_slice : Fees → List ℕ → Res (List ℕ)
pack_into_slice f output = write_front (to_bytes f) output

unfoldable pub unpack_from_slice : List ℕ → Res Fees
unpack_from_slice input = do
  (trade_n, r1) ← split_at 8 input
  (trade_d, r2) ← split_at 8 r1
  (owner_trade_n, r3) ← split_at 8 r2
  (owner_trade_d, r4) ← split_at 8 r3
  (owner_withdraw_n, r5) ← split_at 8 r4
  (owner_withdraw_d, r6) ← split_at 8 r5
  (host_n, r7) ← split_at 8 r6
  (host_d, rest) ← split_at 8 r7
  ok (record {
    trade_fee_numerator = from_le_bytes trade_n;
    trade_fee_denominator = from_le_bytes trade_d;
    owner_trade_fee_numerator = from_le_bytes owner_trade_n;
    owner_trade_fee_denominator = from_le_bytes owner_trade_d;
    owner_withdraw_fee_numerator = from_le_bytes owner_withdraw_n;
    owner_withdraw_fee_denominator = from_le_bytes owner_withdraw_d;
    host_fee_numerator = from_le_bytes host_n;
    host_fee_denominator = from_le_bytes host_d;
  })
