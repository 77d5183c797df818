-- ===== src/State.antt =====
-- The swap account (program/src/state.rs).
pub mod RoundTrip
use solana_psm.Common.{
  ℕ, ◌+◌, Bool, true, false, not, ◌&&◌, List, [], ◌∷◌, ◌++◌, ok, err, panic, ◌>>=◌, ◌>>◌, ltb, ◌==◌,
  if◌then◌else◌,
}
use solana_psm.Common.Bytes.{length, to_le_bytes, from_le_bytes, split_at, write_front}
use solana_psm.Error.{ProgramError, Res}
use solana_psm.Fees
use solana_psm.Fees.{Fees}
use solana_psm.Curve.Base.{SwapCurve}
use solana_psm.Curve.Encoding
use solana_psm.Runtime.{Pubkey, Runtime}

pub record SwapV1 : Type 0 where
  pub is_initialized : Bool
  pub bump_seed : ℕ
  pub token_program_id : Pubkey
  pub token_a : Pubkey
  pub token_b : Pubkey
  pub pool_mint : Pubkey
  pub token_a_mint : Pubkey
  pub token_b_mint : Pubkey
  pub pool_fee_account : Pubkey
  pub fees : Fees
  pub swap_curve : SwapCurve

-- `SwapV1::LEN` and `SwapVersion::LATEST_LEN`
abbrev pub v1_len : ℕ
v1_len = 355

abbrev pub latest_len : ℕ
latest_len = 356

-- `b as u8`
abbrev pub bool_byte : Bool → ℕ
bool_byte true = 1
bool_byte false = 0

-- The match on `is_initialized`.
unfoldable pub read_bool : ℕ → Res Bool
read_bool b =
    if b == 0 then ok false else if b == 1 then ok true else err ProgramError.invalid_account_data

-- The fields before the curve, in order.
unfoldable pub head_bytes : SwapV1 → List ℕ
head_bytes s =
    to_le_bytes 1 (bool_byte s.is_initialized)
    ++ (to_le_bytes 1 s.bump_seed
        ++ (to_le_bytes 32 s.token_program_id
            ++ (to_le_bytes 32 s.token_a
                ++ (to_le_bytes 32 s.token_b
                    ++ (to_le_bytes 32 s.pool_mint
                        ++ (to_le_bytes 32 s.token_a_mint
                            ++ (to_le_bytes 32 s.token_b_mint
                                ++ (to_le_bytes 32 s.pool_fee_account
                                    ++ Fees.to_bytes s.fees))))))))

-- The curve is packed over what the buffer holds in its last 65 bytes.
unfoldable pub pack_into_slice : SwapV1 → List ℕ → Res (List ℕ)
pack_into_slice s output = do
  (old_head, old_rest) ← split_at 290 output
  (old_curve, after) ← split_at 65 old_rest
  curve ← Encoding.pack_into_slice s.swap_curve old_curve
  ok (head_bytes s ++ (curve ++ after))

unfoldable pub unpack_from_slice : List ℕ → Res SwapV1
unpack_from_slice input = do
  (is_initialized, r1) ← split_at 1 input
  (bump_seed, r2) ← split_at 1 r1
  (token_program_id, r3) ← split_at 32 r2
  (token_a, r4) ← split_at 32 r3
  (token_b, r5) ← split_at 32 r4
  (pool_mint, r6) ← split_at 32 r5
  (token_a_mint, r7) ← split_at 32 r6
  (token_b_mint, r8) ← split_at 32 r7
  (pool_fee_account, r9) ← split_at 32 r8
  (fees_slice, r10) ← split_at 64 r9
  (curve_slice, after) ← split_at 65 r10
  initialized ← read_bool (from_le_bytes is_initialized)
  fees ← Fees.unpack_from_slice fees_slice
  swap_curve ← Encoding.unpack_from_slice curve_slice
  ok (record {
    is_initialized = initialized;
    bump_seed = from_le_bytes bump_seed;
    token_program_id = from_le_bytes token_program_id;
    token_a = from_le_bytes token_a;
    token_b = from_le_bytes token_b;
    pool_mint = from_le_bytes pool_mint;
    token_a_mint = from_le_bytes token_a_mint;
    token_b_mint = from_le_bytes token_b_mint;
    pool_fee_account = from_le_bytes pool_fee_account;
    fees = fees;
    swap_curve = swap_curve;
  })

-- `SwapVersion::is_initialized`: the byte after the version is not 0.
unfoldable pub is_initialized : List ℕ → Bool
is_initialized [] = false
is_initialized (version ∷ []) = false
is_initialized (version ∷ flag ∷ rest) = not (flag == 0)

module _ (rt : Runtime) where
  -- `SwapVersion::pack`
  unfoldable pub pack : SwapV1 → List ℕ → Res (List ℕ)
  pack s [] = panic
  pack s (version ∷ rest) = do
    rt.check_len v1_len (length rest)
    packed ← pack_into_slice s rest
    ok (1 ∷ packed)

  -- `SwapVersion::unpack`
  unfoldable pub unpack : List ℕ → Res SwapV1
  unpack [] = err ProgramError.invalid_account_data
  unpack (version ∷ rest) =
      let v1 : Res SwapV1 = do
        rt.check_len v1_len (length rest)
        s ← unpack_from_slice rest
        rt.check_initialized s.is_initialized
        ok s
      in if version == 1 then v1 else err ProgramError.uninitialized_account
