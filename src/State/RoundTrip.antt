-- ===== src/State/RoundTrip.antt =====
-- A swap account that was written is read back.
use solana_psm.Common.{
  ℕ, ◌<◌, ◌^◌, ◌≡◌, refl, ok, List, ◌++◌, ◌∷◌, [], Bool, true, false, sym, ◌∙◌, >>=-eq-ok, arith,
}
use solana_psm.Common.Bytes.{
  length, take, drop, length-append, length-drop, length-take_le, length-to_le_bytes, split_at_ok,
  split_at-to_le_bytes, split_at-append_of_length, to_le_bytes, from_le_bytes,
  from_le_bytes-to_le_bytes,
}
use mathlib.Core.List.{append_assoc, append-nil}
use solana_psm.Error.{ProgramError}
use solana_psm.Fees
use solana_psm.Fees.{IsFees, unpack_from_slice as unpack_fees}
use solana_psm.Fees.Packing.{length-to_bytes, unpack_from_slice-to_bytes}
use solana_psm.Curve.Encoding.RoundTrip.{
  type_of, IsCalculator, packed, pack_into_slice-packed, length-packed, unpack_from_slice-packed,
}
use solana_psm.Runtime.{Runtime, IsRuntime}
use solana_psm.State.{
  SwapV1, bool_byte, read_bool, head_bytes, pack_into_slice, unpack_from_slice, pack, unpack,
  is_initialized,
}

abbrev pub pubkey_mod : ℕ
pubkey_mod = 2 ^ 256

-- The range of the Rust fields, and a curve type that belongs to the calculator.
pub record IsSwap (s : SwapV1) : Type 0 where
  pub bump : s.bump_seed < 256
  pub program : s.token_program_id < pubkey_mod
  pub a : s.token_a < pubkey_mod
  pub b : s.token_b < pubkey_mod
  pub mint : s.pool_mint < pubkey_mod
  pub a_mint : s.token_a_mint < pubkey_mod
  pub b_mint : s.token_b_mint < pubkey_mod
  pub fee_account : s.pool_fee_account < pubkey_mod
  pub fees_range : IsFees s.fees
  pub calculator_range : IsCalculator s.swap_curve.calculator
  pub curve_matches : s.swap_curve.curve_type ≡ type_of s.swap_curve.calculator

length-head_bytes : (s : SwapV1) → length (head_bytes s) ≡ 290
unfolding head_bytes
length-head_bytes s = simp (length-append, length-to_le_bytes, length-to_bytes)

read_bool-byte : (b : Bool) → read_bool (from_le_bytes (to_le_bytes 1 (bool_byte b))) ≡ ok b
unfolding read_bool from_le_bytes to_le_bytes
read_bool-byte true = refl
read_bool-byte false = refl

-- What `SwapV1::pack_into_slice` leaves in a buffer.
abbrev curve_part : SwapV1 → List ℕ → List ℕ
curve_part s out = packed s.swap_curve (take 65 (drop 290 out))

packed_v1 : SwapV1 → List ℕ → List ℕ
packed_v1 s out = head_bytes s ++ (curve_part s out ++ drop 65 (drop 290 out))

length-curve_slot : (out : List ℕ) → length out ≡ 355 → length (take 65 (drop 290 out)) ≡ 65
length-curve_slot out h = length-take_le 65 (drop 290 out) (omega (arith, length-drop 290 out))

length-curve_part : (s : SwapV1) (out : List ℕ) → length out ≡ 355 → length (curve_part s out) ≡ 65
length-curve_part s out h =
    let slot = length-curve_slot out h in
    omega (arith, slot, length-packed s.swap_curve (take 65 (drop 290 out)) (omega arith))

pack_into_slice-packed_v1 :
    (s : SwapV1) (out : List ℕ) → length out ≡ 355 → pack_into_slice s out ≡ ok (packed_v1 s out)
unfolding pack_into_slice packed_v1
pack_into_slice-packed_v1 s out h =
    let slot = length-curve_slot out h in
    simp (
      split_at_ok {E = ProgramError} 290 out (omega arith),
      split_at_ok {E = ProgramError} 65 (drop 290 out) (omega (arith, length-drop 290 out)),
      pack_into_slice-packed s.swap_curve (take 65 (drop 290 out)) (omega arith),
    )

length-packed_v1 : (s : SwapV1) (out : List ℕ) → length out ≡ 355 → length (packed_v1 s out) ≡ 355
unfolding packed_v1
length-packed_v1 s out h = omega (
  arith,
  length-head_bytes s,
  length-curve_part s out h,
  length-append (head_bytes s) (curve_part s out ++ drop 65 (drop 290 out)),
  length-append (curve_part s out) (drop 65 (drop 290 out)),
  length-drop 65 (drop 290 out),
  length-drop 290 out,
)

unpack_from_slice-packed_v1 :
    (s : SwapV1) (out : List ℕ)
    → IsSwap s
    → length out ≡ 355
    → unpack_from_slice (packed_v1 s out) ≡ ok s
unfolding unpack_from_slice packed_v1 head_bytes
unpack_from_slice-packed_v1 s out r h =
    let slot = length-curve_slot out h in
    let after = drop 65 (drop 290 out) in
    let fees : unpack_fees (Fees.to_bytes s.fees) ≡ ok s.fees =
      rw append-nil at (unpack_from_slice-to_bytes s.fees [] r.fees_range) in
    simp (
      append_assoc,
      split_at-to_le_bytes,
      split_at-append_of_length {E = ProgramError} 64 (Fees.to_bytes s.fees)
          (curve_part s out ++ after) (length-to_bytes s.fees),
      split_at-append_of_length {E = ProgramError} 65 (curve_part s out) after
          (length-curve_part s out h),
      read_bool-byte,
      fees,
      unpack_from_slice-packed s.swap_curve (take 65 (drop 290 out)) r.curve_matches
          r.calculator_range (omega arith),
      from_le_bytes-to_le_bytes 1 s.bump_seed r.bump,
      from_le_bytes-to_le_bytes 32 s.token_program_id r.program,
      from_le_bytes-to_le_bytes 32 s.token_a r.a,
      from_le_bytes-to_le_bytes 32 s.token_b r.b,
      from_le_bytes-to_le_bytes 32 s.pool_mint r.mint,
      from_le_bytes-to_le_bytes 32 s.token_a_mint r.a_mint,
      from_le_bytes-to_le_bytes 32 s.token_b_mint r.b_mint,
      from_le_bytes-to_le_bytes 32 s.pool_fee_account r.fee_account,
    )

is_initialized-packed_v1 :
    (s : SwapV1) (out : List ℕ)
    → s.is_initialized ≡ true
    → is_initialized (1 ∷ packed_v1 s out) ≡ true
unfolding is_initialized packed_v1 head_bytes to_le_bytes
is_initialized-packed_v1 s out h = rw h

module _ (rt : Runtime) (laws : IsRuntime rt) where
  -- Writing an initialized swap to an account of the right size works, keeps the size, marks the
  -- account as initialized, and reading the account gives the swap back. (Its numbers are in the
  -- range of the Rust fields, and the curve's type is that of its calculator.)
  pub unpack-pack_swap :
      (s : SwapV1) (out : List ℕ)
      → IsSwap s
      → s.is_initialized ≡ true
      → length out ≡ 356
      → (out' : List ℕ) × (pack rt s out ≡ ok out')
        × (unpack rt out' ≡ ok s)
        × (length out' ≡ 356)
        × (is_initialized out' ≡ true)
  unfolding pack unpack
  unpack-pack_swap s [] r i h = absurd (omega arith)
  unpack-pack_swap s (version ∷ rest) r i h =
      let size : length rest ≡ 355 = omega arith in
      let size' = length-packed_v1 s rest size in
      (
        1 ∷ packed_v1 s rest,
        simp (laws.check_len_lem, size, pack_into_slice-packed_v1 s rest size),
        simp (
          laws.check_len_lem,
          size',
          unpack_from_slice-packed_v1 s rest r size,
          laws.check_initialized_lem,
          i,
        ),
        omega (arith, size'),
        is_initialized-packed_v1 s rest i,
      )

  -- An account that takes the packed swap has the right size, and an initialized swap marks it.
  pub length_of_packed :
      (s : SwapV1) (out out' : List ℕ) → pack rt s out ≡ ok out' → length out ≡ 356
  unfolding pack
  length_of_packed s [] out' h = cc
  length_of_packed s (version ∷ rest) out' h =
      let (_, checked, _) = >>=-eq-ok (rt.check_len 355 (length rest)) _ h in
      ground (arith, laws.check_len_lem 355 (length rest), checked)

  pub is_initialized-pack :
      (s : SwapV1) (out out' : List ℕ)
      → s.is_initialized ≡ true
      → pack rt s out ≡ ok out'
      → is_initialized out' ≡ true
  unfolding pack
  is_initialized-pack s [] out' i h = cc
  is_initialized-pack s (version ∷ rest) out' i h =
      let size : length rest ≡ 355 = omega (arith, length_of_packed s (version ∷ rest) out' h) in
      let same : ok out' ≡ ok (1 ∷ packed_v1 s rest) =
        sym h ∙ simp (laws.check_len_lem, size, pack_into_slice-packed_v1 s rest size) in
      let e : out' ≡ 1 ∷ packed_v1 s rest = cc (same) in rw e (is_initialized-packed_v1 s rest i)

  pub unpack-pack_ok :
      (s : SwapV1) (out out' : List ℕ)
      → IsSwap s
      → s.is_initialized ≡ true
      → pack rt s out ≡ ok out'
      → unpack rt out' ≡ ok s
  unpack-pack_ok s out out' r i h =
      let (found, packed, read, _, _) =
        unpack-pack_swap s out r i (length_of_packed s out out' h) in
      let e : found ≡ out' = cc (packed, h) in rw e at read
