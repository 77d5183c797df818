-- ===== src/Fees/Packing.antt =====
-- The 64 bytes of a packed `Fees`.
use solana_psm.Common.{ℕ, ◌≡◌, List, ◌++◌, ok}
use solana_psm.Common.Bytes.{
  length, length-append, length-to_le_bytes, split_at-to_le_bytes, from_le_bytes-to_le_bytes,
}
use solana_psm.Fees.{Fees, IsFees, to_bytes, unpack_from_slice}
use mathlib.Core.List.{append_assoc}

pub length-to_bytes : (f : Fees) → length (to_bytes f) ≡ 64
unfolding to_bytes
length-to_bytes f = simp (length-append, length-to_le_bytes)

-- Unpacking reads back the fees, all of them `u64`, that were packed, whatever bytes follow.
pub unpack_from_slice-to_bytes :
    (f : Fees) (rest : List ℕ) → IsFees f → unpack_from_slice (to_bytes f ++ rest) ≡ ok f
unfolding to_bytes unpack_from_slice
unpack_from_slice-to_bytes f rest r = simp (
  append_assoc,
  split_at-to_le_bytes,
  from_le_bytes-to_le_bytes 8 f.trade_fee_numerator r.trade_numerator,
  from_le_bytes-to_le_bytes 8 f.trade_fee_denominator r.trade_denominator,
  from_le_bytes-to_le_bytes 8 f.owner_trade_fee_numerator r.owner_trade_numerator,
  from_le_bytes-to_le_bytes 8 f.owner_trade_fee_denominator r.owner_trade_denominator,
  from_le_bytes-to_le_bytes 8 f.owner_withdraw_fee_numerator r.owner_withdraw_numerator,
  from_le_bytes-to_le_bytes 8 f.owner_withdraw_fee_denominator r.owner_withdraw_denominator,
  from_le_bytes-to_le_bytes 8 f.host_fee_numerator r.host_numerator,
  from_le_bytes-to_le_bytes 8 f.host_fee_denominator r.host_denominator,
)
