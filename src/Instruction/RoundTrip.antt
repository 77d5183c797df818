-- ===== src/Instruction/RoundTrip.antt =====
-- An instruction that was packed is read back (program/src/instruction.rs).
use solana_psm.Common.{
  ℕ, zero, suc, ◌<◌, ◌^◌, ◌≡◌, refl, sym, ◌∙◌, ap, ok, List, ◌++◌, ◌∷◌, [], Bool, true, false, leb,
  u64_mod, u128_mod, arith,
}
use solana_psm.Common.Bytes.{
  length, drop, length-append, length-to_le_bytes, split_at-to_le_bytes, to_le_bytes,
  from_le_bytes-to_le_bytes, write_front_ok, split_at-append_of_length,
}
use mathlib.Core.List.{append-nil}
use solana_psm.Error.{ProgramError}
use solana_psm.Runtime.{Runtime, IsRuntime}
use solana_psm.Fees
use solana_psm.Fees.{IsFees}
use solana_psm.Fees.Packing.{length-to_bytes, unpack_from_slice-to_bytes}
use solana_psm.Curve.Encoding.RoundTrip.{
  type_of, IsCalculator, packed, pack_into_slice-packed, length-packed, unpack_from_slice-packed,
}
use solana_psm.State.{bool_byte}
use solana_psm.State.RoundTrip.{pubkey_mod}
use solana_psm.Instruction.{
  SwapInstruction, Initialize, initialize, swap, deposit_all_token_types, withdraw_all_token_types,
  deposit_single_token_type_exact_amount_in, withdraw_single_token_type_exact_amount_out, set_rates,
  initialize_permission, update_permission, unpack_bool, unpack_uint, unpack_swap,
  unpack_deposit_all, unpack_withdraw_all, unpack_deposit_single, unpack_withdraw_single,
  unpack_set_rates, unpack_initialize_permission, unpack_update_permission, unpack_initialize,
  unpack, zeros, pack,
}

-- The ranges of the Rust fields, and a curve type that belongs to the calculator.
unfoldable pub IsInstruction : SwapInstruction → Type 0
IsInstruction (initialize i) =
    IsFees i.fees
    × IsCalculator i.swap_curve.calculator
    × (i.swap_curve.curve_type ≡ type_of i.swap_curve.calculator)
IsInstruction (swap i) = (i.amount_in < u64_mod) × (i.minimum_amount_out < u64_mod)
IsInstruction (deposit_all_token_types i) =
    (i.pool_token_amount < u64_mod)
    × (i.maximum_token_a_amount < u64_mod)
    × (i.maximum_token_b_amount < u64_mod)
IsInstruction (withdraw_all_token_types i) =
    (i.pool_token_amount < u64_mod)
    × (i.minimum_token_a_amount < u64_mod)
    × (i.minimum_token_b_amount < u64_mod)
IsInstruction (deposit_single_token_type_exact_amount_in i) =
    (i.source_token_amount < u64_mod) × (i.minimum_pool_token_amount < u64_mod)
IsInstruction (withdraw_single_token_type_exact_amount_out i) =
    (i.destination_token_amount < u64_mod) × (i.maximum_pool_token_amount < u64_mod)
IsInstruction (set_rates i) = (i.ssr < u128_mod) × (i.rho < u128_mod) × (i.chi < u128_mod)
IsInstruction (initialize_permission i) = i.permission_authority < pubkey_mod
IsInstruction (update_permission i) = Unit

unpack_uint-to_le_bytes :
    (k v : ℕ) (rest : List ℕ) → v < 256 ^ k → unpack_uint k (to_le_bytes k v ++ rest) ≡ ok (v, rest)
unfolding unpack_uint
unpack_uint-to_le_bytes k v rest h =
    let fits : leb k (length (to_le_bytes k v ++ rest)) ≡ true =
      ground (arith, length-append (to_le_bytes k v) rest, length-to_le_bytes k v) in
    simp (fits, split_at-to_le_bytes, from_le_bytes-to_le_bytes k v h)

-- The last amount of an instruction has no bytes after it.
unpack_uint-last : (k v : ℕ) → v < 256 ^ k → unpack_uint k (to_le_bytes k v) ≡ ok (v, [])
unpack_uint-last k v h =
    ap (unpack_uint k) (sym (append-nil (to_le_bytes k v))) ∙ unpack_uint-to_le_bytes k v [] h

unpack_bool-byte : (b : Bool) (rest : List ℕ) → unpack_bool (bool_byte b ∷ rest) ≡ ok (b, rest)
unfolding unpack_bool
unpack_bool-byte true rest = refl
unpack_bool-byte false rest = refl

length-zeros : (n : ℕ) → length (zeros n) ≡ n
unfolding zeros
length-zeros zero = refl
length-zeros (suc n) = omega (arith, length-zeros n)

-- The fees fill their slice.
fees_slice-to_bytes :
    (f : Fees.Fees) → Fees.pack_into_slice f (zeros 64) ≡ ok (Fees.to_bytes f ++ drop 64 (zeros 64))
unfolding Fees.pack_into_slice
fees_slice-to_bytes f =
    let size = length-to_bytes f in
    rw size at (
      write_front_ok {E = ProgramError} (Fees.to_bytes f) (zeros 64)
        (omega (arith, size, length-zeros 64)))

drop-zeros : drop 64 (zeros 64) ≡ []
unfolding drop zeros
drop-zeros = refl

-- The bytes after the tag of an `Initialize`.
abbrev pub initialize_bytes : Initialize → List ℕ
initialize_bytes i = Fees.to_bytes i.fees ++ packed i.swap_curve (zeros 65)

pub pack-initialize : (i : Initialize) → pack (initialize i) ≡ ok (0 ∷ initialize_bytes i)
unfolding pack
pack-initialize i = simp (
  fees_slice-to_bytes i.fees,
  drop-zeros,
  append-nil,
  pack_into_slice-packed i.swap_curve (zeros 65) (omega (arith, length-zeros 65)),
)

module _ (rt : Runtime) (laws : IsRuntime rt) where
  unpack_initialize-bytes :
      (i : Initialize)
      → IsInstruction (initialize i)
      → unpack_initialize rt (initialize_bytes i) ≡ ok (initialize i)
  unfolding unpack_initialize IsInstruction
  unpack_initialize-bytes i (fees_range, calculator_range, matches) =
      let size = length-to_bytes i.fees in
      let curve = packed i.swap_curve (zeros 65) in
      let zeros_size = length-zeros 65 in
      let curve_size : length curve ≡ 65 =
        omega (arith, zeros_size, length-packed i.swap_curve (zeros 65) (omega arith)) in
      let fits : leb 64 (length (Fees.to_bytes i.fees ++ curve)) ≡ true =
        ground (arith, size, length-append (Fees.to_bytes i.fees) curve) in
      let fees : Fees.unpack_from_slice (Fees.to_bytes i.fees) ≡ ok i.fees =
        rw append-nil at (unpack_from_slice-to_bytes i.fees [] fees_range) in
      simp (
        fits,
        split_at-append_of_length {E = ProgramError} 64 (Fees.to_bytes i.fees) curve size,
        laws.check_len_lem,
        size,
        curve_size,
        fees,
        unpack_from_slice-packed i.swap_curve (zeros 65) matches calculator_range (omega arith),
      )

  -- Packing an instruction works, and unpacking the bytes gives the instruction back. (Its numbers
  -- are in the range of the Rust fields, and a curve's type is that of its calculator.)
  pub unpack-pack_instruction :
      (i : SwapInstruction)
      → IsInstruction i
      → (bytes : List ℕ) × (pack i ≡ ok bytes) × (unpack rt bytes ≡ ok i)
  unfolding pack unpack IsInstruction unpack_swap unpack_deposit_all unpack_withdraw_all
      unpack_deposit_single unpack_withdraw_single unpack_set_rates unpack_update_permission
      unpack_initialize_permission
  unpack-pack_instruction (initialize i) r = (_, pack-initialize i, unpack_initialize-bytes i r)
  unpack-pack_instruction (swap i) (h1, h2) = (
    _,
    refl,
    simp (
      unpack_uint-to_le_bytes 8 i.amount_in (to_le_bytes 8 i.minimum_amount_out) h1,
      unpack_uint-last 8 i.minimum_amount_out h2,
    ),
  )
  unpack-pack_instruction (deposit_all_token_types i) (h1, h2, h3) = (
    _,
    refl,
    simp (
      unpack_uint-to_le_bytes 8 i.pool_token_amount
          (to_le_bytes 8 i.maximum_token_a_amount ++ to_le_bytes 8 i.maximum_token_b_amount) h1,
      unpack_uint-to_le_bytes 8 i.maximum_token_a_amount (to_le_bytes 8 i.maximum_token_b_amount)
          h2,
      unpack_uint-last 8 i.maximum_token_b_amount h3,
    ),
  )
  unpack-pack_instruction (withdraw_all_token_types i) (h1, h2, h3) = (
    _,
    refl,
    simp (
      unpack_uint-to_le_bytes 8 i.pool_token_amount
          (to_le_bytes 8 i.minimum_token_a_amount ++ to_le_bytes 8 i.minimum_token_b_amount) h1,
      unpack_uint-to_le_bytes 8 i.minimum_token_a_amount (to_le_bytes 8 i.minimum_token_b_amount)
          h2,
      unpack_uint-last 8 i.minimum_token_b_amount h3,
    ),
  )
  unpack-pack_instruction (deposit_single_token_type_exact_amount_in i) (h1, h2) = (
    _,
    refl,
    simp (
      unpack_uint-to_le_bytes 8 i.source_token_amount (to_le_bytes 8 i.minimum_pool_token_amount)
          h1,
      unpack_uint-last 8 i.minimum_pool_token_amount h2,
    ),
  )
  unpack-pack_instruction (withdraw_single_token_type_exact_amount_out i) (h1, h2) = (
    _,
    refl,
    simp (
      unpack_uint-to_le_bytes 8 i.destination_token_amount
          (to_le_bytes 8 i.maximum_pool_token_amount) h1,
      unpack_uint-last 8 i.maximum_pool_token_amount h2,
    ),
  )
  unpack-pack_instruction (set_rates i) (h1, h2, h3) = (
    _,
    refl,
    simp (
      unpack_uint-to_le_bytes 16 i.ssr (to_le_bytes 16 i.rho ++ to_le_bytes 16 i.chi) h1,
      unpack_uint-to_le_bytes 16 i.rho (to_le_bytes 16 i.chi) h2,
      unpack_uint-last 16 i.chi h3,
    ),
  )
  unpack-pack_instruction (initialize_permission i) h = (
    _,
    refl,
    simp (
      split_at-to_le_bytes,
      unpack_bool-byte,
      from_le_bytes-to_le_bytes 32 i.permission_authority h,
    ),
  )
  unpack-pack_instruction (update_permission i) h = (_, refl, simp unpack_bool-byte)
