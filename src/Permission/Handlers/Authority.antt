-- ===== src/Permission/Handlers/Authority.antt =====
-- Who may run a permission instruction, and what it changes (program/src/permission.rs).
use solana_psm.Common.{ℕ, ◌≡◌, ok, List, ◌∷◌, Bool, true, not, ◌==◌, arith}
use solana_psm.Runtime.{Pubkey, Runtime, World, AccountInfo}
use solana_psm.Runtime.Action.{Action, ◌>>=◌, >>=-eq-ok_same, fail_if-eq-ok, lift-eq-ok, with_data}
use solana_psm.Permission.{Permission, pack, unpack, validate_super_admin_permission}
use solana_psm.Permission.Account.{unpack_permission, derive_permission_pubkey_and_bump}
use solana_psm.Permission.Handlers.{process_update_permission}

-- The account that a permission is read from and what it holds.
pub record Grants (rt : Runtime) (program : Pubkey) (w : World) (account swap signer : AccountInfo)
    (p : Permission) : Type 0 where
  pub owned : (w account.key).owner ≡ program
  pub address : (derive_permission_pubkey_and_bump rt swap.key signer.key).0 ≡ account.key
  pub stored : unpack rt (w account.key).bytes ≡ ok p
  pub of_signer : p.authority ≡ signer.key
  pub of_swap : p.swap ≡ swap.key

-- What an update of a permission was, where it ended well.
pub record PermissionUpdate (rt : Runtime) (program : Pubkey)
    (swap account updated signer : AccountInfo) (admin can_update : Bool) (w w' : World)
    : Type 0 where
  pub granting : Permission
  pub old : Permission
  pub written : List ℕ
  pub signed : signer.is_signer ≡ true
  pub owned : (w swap.key).owner ≡ program
  pub updated_owned : (w updated.key).owner ≡ program
  pub grants : Grants rt program w account swap signer granting
  pub super : granting.is_super_admin ≡ true
  pub stored : unpack rt (w updated.key).bytes ≡ ok old
  pub of_swap : old.swap ≡ swap.key
  pub packed :
      pack rt
        (record old { is_super_admin = admin; can_update_parameters = can_update })
        (w updated.key).bytes
      ≡ ok written
  pub after : w' ≡ with_data w updated.key written

pub super_admin :
    (p : Permission) → validate_super_admin_permission p ≡ ok tt → p.is_super_admin ≡ true
unfolding validate_super_admin_permission
super_admin p h = ground arith

module _ (rt : Runtime) where
  pub unpack_permission-eq-ok :
      (account swap signer : AccountInfo) (program : Pubkey) (w : World) (p : Permission)
      (w' : World)
      → unpack_permission rt account swap signer program w ≡ ok (p, w')
      → (w' ≡ w) × Grants rt program w account swap signer p
  unfolding unpack_permission
  unpack_permission-eq-ok account swap signer program w p w' h =
      let inverted : (w' ≡ w)
          × ((w account.key).owner ≡ program)
          × ((derive_permission_pubkey_and_bump rt swap.key signer.key).0 ≡ account.key)
          × (unpack rt (w account.key).bytes ≡ ok p)
          × (p.authority ≡ signer.key)
          × (p.swap ≡ swap.key) =
        ground arith in
      let (same, owned, address, stored, of_signer, of_swap) = inverted in
      (
        same,
        record {
          owned = owned;
          address = address;
          stored = stored;
          of_signer = of_signer;
          of_swap = of_swap;
        },
      )

  -- What a handler that reads a permission and ends well has found.
  pub after_unpack_permission :
      {A : Type 0} (account swap signer : AccountInfo) (program : Pubkey)
      (k : Permission → Action A) (w : World) {r : A × World}
      → (unpack_permission rt account swap signer program >>= k) w ≡ ok r
      → (p : Permission) × Grants rt program w account swap signer p × (k p w ≡ ok r)
  after_unpack_permission account swap signer program k w h =
      let (p, read, rest) =
        >>=-eq-ok_same (unpack_permission rt account swap signer program) k w
          (λ p v e. (unpack_permission-eq-ok account swap signer program w p v e).0) h in
      (p, (unpack_permission-eq-ok account swap signer program w p w read).1, rest)

  -- A permission update that succeeds was signed by the holder of an initialized super-admin
  -- permission of the swap; it changes the data of the updated account alone, where it sets the two
  -- powers and keeps the flag, the swap and the authority of the permission that was there, which
  -- is one of the same swap.
  pub process_update_permission-Grants :
      (program : Pubkey) (swap account updated signer : AccountInfo) (rest : List AccountInfo)
      (admin can_update : Bool) (w w' : World)
      → process_update_permission rt program
          (swap ∷ account ∷ updated ∷ signer ∷ rest)
          admin
          can_update
          w
        ≡ ok (tt, w')
      → PermissionUpdate rt program swap account updated signer admin can_update w w'
  unfolding process_update_permission
  process_update_permission-Grants program swap account updated signer rest admin can_update w w'
        h =
      let (owned, r1) = fail_if-eq-ok (not ((w swap.key).owner == program)) _ _ w h in
      let (signed, r2) = fail_if-eq-ok (not signer.is_signer) _ _ w r1 in
      let (updated_owned, r3) = fail_if-eq-ok (not ((w updated.key).owner == program)) _ _ w r2 in
      let (granting, grants, r4) = after_unpack_permission account swap signer program _ w r3 in
      let (_, super, r5) = lift-eq-ok (validate_super_admin_permission granting) _ w r4 in
      let (old, found, r6) = lift-eq-ok (unpack rt (w updated.key).bytes) _ w r5 in
      let (of_swap, r7) = fail_if-eq-ok (not (old.swap == swap.key)) _ _ w r6 in
      let (bytes, packed, r8) =
        lift-eq-ok
          (pack rt (record old { is_super_admin = admin; can_update_parameters = can_update })
            (w updated.key).bytes)
          _ w r7 in
      record {
        granting = granting;
        old = old;
        written = bytes;
        signed = ground (arith, signed);
        owned = ground (arith, owned);
        updated_owned = ground (arith, updated_owned);
        grants = grants;
        super = super_admin granting super;
        stored = found;
        of_swap = ground (arith, of_swap);
        packed = packed;
        after = ground (arith, r8);
      }
