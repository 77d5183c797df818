-- ===== src/Curve/Encoding/RoundTrip.antt =====
-- A packed curve is unpacked to itself.
use solana_psm.Common.{
  ℕ, ◌+◌, ◌*◌, ◌≤◌, ◌<◌, ◌≡◌, refl, ok, List, ◌++◌, ◌∷◌, [], u64_mod, u128_mod, arith,
}
use solana_psm.Common.Bytes.{
  length, take, drop, length-append, length-drop, length-take_le, length-to_le_bytes, split_at,
  split_at_ok, split_at-to_le_bytes, split_at-append_of_length, from_le_bytes,
  from_le_bytes-to_le_bytes, write_front_ok,
}
use mathlib.Core.List.{append_assoc}
use solana_psm.Error.{ProgramError}
use solana_psm.Curve.Base.{
  SwapCurve, CurveType, constant_product, constant_price, offset, redemption_rate_curve, Calculator,
  product, price, with_offset, redemption_rate, as_u8, try_from,
}
use solana_psm.Curve.Encoding.{
  calculator_bytes, unpack_calculator, unpack_redemption_rate, pack_into_slice, unpack_from_slice,
}

-- The curve type that belongs to a calculator.
abbrev pub type_of : Calculator → CurveType
type_of product = constant_product
type_of (price c) = constant_price
type_of (with_offset c) = offset
type_of (redemption_rate c) = redemption_rate_curve

-- The range of the Rust fields.
abbrev pub IsCalculator : Calculator → Type 0
IsCalculator product = Unit
IsCalculator (price c) = c.token_b_price < u128_mod
IsCalculator (with_offset c) = c.token_b_offset < u64_mod
IsCalculator (redemption_rate c) =
    (c.max_ssr < u128_mod) × (c.ssr < u128_mod) × (c.rho < u128_mod) × (c.chi < u128_mod)

length-calculator_bytes : (c : Calculator) → length (calculator_bytes c) ≤ 64
unfolding calculator_bytes
length-calculator_bytes product = omega arith
length-calculator_bytes (price c) = rw (length-to_le_bytes) (omega arith)
length-calculator_bytes (with_offset c) = rw (length-to_le_bytes) (omega arith)
length-calculator_bytes (redemption_rate c) = simp (length-append, length-to_le_bytes) (omega arith)

unpack_calculator-bytes :
    (c : Calculator) (rest : List ℕ)
    → IsCalculator c
    → unpack_calculator (type_of c) (calculator_bytes c ++ rest) ≡ ok c
unfolding unpack_calculator unpack_redemption_rate calculator_bytes
unpack_calculator-bytes product rest r = refl
unpack_calculator-bytes (price c) rest r =
    simp (split_at-to_le_bytes, from_le_bytes-to_le_bytes 16 c.token_b_price r)
unpack_calculator-bytes (with_offset c) rest r =
    simp (split_at-to_le_bytes, from_le_bytes-to_le_bytes 8 c.token_b_offset r)
unpack_calculator-bytes (redemption_rate c) rest (r0, r1, r2, r3) = simp (
  append_assoc,
  split_at-to_le_bytes,
  from_le_bytes-to_le_bytes 16 c.max_ssr r0,
  from_le_bytes-to_le_bytes 16 c.ssr r1,
  from_le_bytes-to_le_bytes 16 c.rho r2,
  from_le_bytes-to_le_bytes 16 c.chi r3,
)

try_from-as_u8 : (t : CurveType) → try_from (as_u8 t) ≡ ok t
unfolding try_from as_u8
try_from-as_u8 constant_product = refl
try_from-as_u8 constant_price = refl
try_from-as_u8 offset = refl
try_from-as_u8 redemption_rate_curve = refl

one_byte : {E : Type 0} (b : ℕ) (rest : List ℕ) → split_at {E = E} 1 (b ∷ rest) ≡ ok (b ∷ [], rest)
one_byte b rest = split_at-append_of_length 1 (b ∷ []) rest refl

-- What `pack_into_slice` leaves in a buffer of at least 65 bytes.
pub packed : SwapCurve → List ℕ → List ℕ
packed c out =
    let old = take 64 (drop 1 out) in
    as_u8 c.curve_type
    ∷ ((calculator_bytes c.calculator ++ drop (length (calculator_bytes c.calculator)) old)
        ++ drop 64 (drop 1 out))

pub length-drop_one : (out : List ℕ) → 65 ≤ length out → 64 ≤ length (drop 1 out)
length-drop_one out h = omega (arith, length-drop 1 out)

pub pack_into_slice-packed :
    (c : SwapCurve) (out : List ℕ) → 65 ≤ length out → pack_into_slice c out ≡ ok (packed c out)
unfolding pack_into_slice packed
pack_into_slice-packed c out h =
    let room = length-drop_one out h in
    let slot = length-take_le 64 (drop 1 out) room in
    simp (
      split_at_ok {E = ProgramError} 1 out (omega arith),
      split_at_ok {E = ProgramError} 64 (drop 1 out) room,
      write_front_ok {E = ProgramError} (calculator_bytes c.calculator) (take 64 (drop 1 out))
          (omega (arith, slot, length-calculator_bytes c.calculator)),
    )

pub length-packed :
    (c : SwapCurve) (out : List ℕ) → 65 ≤ length out → length (packed c out) ≡ length out
unfolding packed
length-packed c out h =
    let room = length-drop_one out h in
    let slot = length-take_le 64 (drop 1 out) room in
    let bytes = calculator_bytes c.calculator in
    let old = take 64 (drop 1 out) in
    omega (
      arith,
      slot,
      length-calculator_bytes c.calculator,
      length-append (bytes ++ drop (length bytes) old) (drop 64 (drop 1 out)),
      length-append bytes (drop (length bytes) old),
      length-drop (length bytes) old,
      length-drop 64 (drop 1 out),
      length-drop 1 out,
    )

pub unpack_from_slice-packed :
    (c : SwapCurve) (out : List ℕ)
    → c.curve_type ≡ type_of c.calculator
    → IsCalculator c.calculator
    → 65 ≤ length out
    → unpack_from_slice (packed c out) ≡ ok c
unfolding unpack_from_slice packed from_le_bytes
unpack_from_slice-packed c out t r h =
    let room = length-drop_one out h in
    let slot = length-take_le 64 (drop 1 out) room in
    let bytes = calculator_bytes c.calculator in
    let old = take 64 (drop 1 out) in
    let filled = bytes ++ drop (length bytes) old in
    let full : length filled ≡ 64 = omega (
      arith,
      slot,
      length-calculator_bytes c.calculator,
      length-append bytes (drop (length bytes) old),
      length-drop (length bytes) old,
    ) in
    let same : as_u8 c.curve_type + 256 * 0 ≡ as_u8 c.curve_type = omega arith in
    let inner : unpack_calculator c.curve_type filled ≡ ok c.calculator =
      rw t (unpack_calculator-bytes c.calculator _ r) in
    simp (
      one_byte {E = ProgramError} (as_u8 c.curve_type) (filled ++ drop 64 (drop 1 out)),
      split_at-append_of_length {E = ProgramError} 64 filled (drop 64 (drop 1 out)) full,
      same,
      try_from-as_u8,
      inner,
    )
