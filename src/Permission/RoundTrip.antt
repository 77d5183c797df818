-- ===== src/Permission/RoundTrip.antt =====
-- A permission that was written is read back (program/src/permission.rs).
use solana_psm.Common.{ℕ, ◌<◌, ◌≡◌, refl, ok, List, ◌++◌, Bool, true, false, arith}
use solana_psm.Common.Bytes.{
  length, drop, length-append, length-to_le_bytes, split_at-to_le_bytes, to_le_bytes, from_le_bytes,
  from_le_bytes-to_le_bytes, write_front_ok, length-drop,
}
use mathlib.Core.List.{append_assoc}
use solana_psm.Error.{ProgramError}
use solana_psm.Runtime.{Runtime, IsRuntime}
use solana_psm.State.{bool_byte}
use solana_psm.State.RoundTrip.{pubkey_mod}
use solana_psm.Permission.{
  Permission, to_bytes, non_zero, pack_into_slice, unpack_from_slice, pack, unpack,
  unpack_unchecked,
}

-- The range of the two addresses.
pub record IsPermission (p : Permission) : Type 0 where
  pub swap_range : p.swap < pubkey_mod
  pub authority_range : p.authority < pubkey_mod

length-to_bytes : (p : Permission) → length (to_bytes p) ≡ 67
unfolding to_bytes
length-to_bytes p = simp (length-append, length-to_le_bytes)

non_zero-byte : (b : Bool) → non_zero (to_le_bytes 1 (bool_byte b)) ≡ b
unfolding from_le_bytes to_le_bytes
non_zero-byte true = refl
non_zero-byte false = refl

unpack_from_slice-to_bytes :
    (p : Permission) (rest : List ℕ)
    → IsPermission p
    → unpack_from_slice (to_bytes p ++ rest) ≡ ok p
unfolding unpack_from_slice to_bytes
unpack_from_slice-to_bytes p rest r = simp (
  append_assoc,
  split_at-to_le_bytes,
  non_zero-byte,
  from_le_bytes-to_le_bytes 32 p.swap r.swap_range,
  from_le_bytes-to_le_bytes 32 p.authority r.authority_range,
)

module _ (rt : Runtime) (laws : IsRuntime rt) where
  -- Writing an initialized permission to an account of the right size works, keeps the size, and
  -- reading the account gives the permission back. (The two addresses have 32 bytes.)
  pub unpack-pack_permission :
      (p : Permission) (out : List ℕ)
      → IsPermission p
      → p.is_initialized ≡ true
      → length out ≡ 67
      → (out' : List ℕ) × (pack rt p out ≡ ok out') × (unpack rt out' ≡ ok p) × (length out' ≡ 67)
  unfolding pack unpack unpack_unchecked pack_into_slice
  unpack-pack_permission p out r i h =
      let size = length-to_bytes p in
      let size' : length (to_bytes p ++ drop (length (to_bytes p)) out) ≡ 67 = omega (
        arith,
        length-append (to_bytes p) (drop (length (to_bytes p)) out),
        length-drop (length (to_bytes p)) out,
      ) in
      (
        to_bytes p ++ drop (length (to_bytes p)) out,
        simp (
          laws.check_len_lem,
          h,
          write_front_ok {E = ProgramError} (to_bytes p) out (omega arith),
        ),
        simp (
          laws.check_len_lem,
          size',
          unpack_from_slice-to_bytes p (drop (length (to_bytes p)) out) r,
          laws.check_initialized_lem,
          i,
        ),
        size',
      )
