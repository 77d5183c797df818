-- ===== src/Permission/Handlers/Creation.antt =====
-- What creating a permission needs and does (program/src/permission.rs).
use solana_psm.Common.{
  ◌≢◌, ◌⊎◌, inl, inr, Bool-cases, ℕ, ◌≡◌, ok, List, ◌∷◌, Bool, true, false, not, ◌==◌, arith,
}
use solana_psm.Runtime.{Pubkey, Runtime, World, AccountInfo}
use solana_psm.Runtime.Action.{>>=-eq-ok, fail_if-eq-ok, lift-eq-ok, with_data}
use solana_psm.Permission.{Permission, pack, unpack_unchecked, validate_super_admin_permission}
use solana_psm.Permission.Account.{
  create_permission_account, refuse_initialized, derive_permission_pubkey_and_bump,
}
use solana_psm.Permission.Handlers.{process_initialize_permission}
use solana_psm.Permission.Handlers.Authority.{Grants, after_unpack_permission, super_admin}

-- The permission that is created.
abbrev pub new_permission : Pubkey → Pubkey → Bool → Bool → Permission
new_permission swap authority admin can_update = record {
  is_initialized = true;
  swap = swap;
  authority = authority;
  is_super_admin = admin;
  can_update_parameters = can_update;
}

-- An account that is not the program's, or that holds a permission that is not initialized.
abbrev pub Fresh : Runtime → Pubkey → AccountInfo → World → Type 0
Fresh rt program created w =
    ((w created.key).owner ≢ program)
    ⊎ ((p : Permission) × (unpack_unchecked rt (w created.key).bytes ≡ ok p)
        × (p.is_initialized ≡ false))

-- What the creation of a permission was, where it ended well.
pub record PermissionCreation (rt : Runtime) (program : Pubkey)
    (swap account created signer payer system : AccountInfo) (authority : Pubkey)
    (admin can_update : Bool) (w w' : World) : Type 0 where
  pub granting : Permission
  pub middle : World
  pub written : List ℕ
  pub signed : signer.is_signer ≡ true
  pub owned : (w swap.key).owner ≡ program
  pub grants : Grants rt program w account swap signer granting
  pub super : granting.is_super_admin ≡ true
  pub address : created.key ≡ (derive_permission_pubkey_and_bump rt swap.key authority).0
  pub fresh : Fresh rt program created w
  pub made :
      create_permission_account rt program payer created system swap.key authority w
      ≡ ok (tt, middle)
  pub packed :
      pack rt (new_permission swap.key authority admin can_update) (middle created.key).bytes
      ≡ ok written
  pub after : w' ≡ with_data middle created.key written

module _ (rt : Runtime) where
  refuse_initialized-eq-ok :
      (program : Pubkey) (created : AccountInfo) (w : World) (r : Unit {0} × World)
      → refuse_initialized rt program created w ≡ ok r
      → Fresh rt program created w
  unfolding refuse_initialized
  refuse_initialized-eq-ok program created w r h =
      elim (Bool-cases ((w created.key).owner == program)) [
        | inl own ↦
            let (p, found, rest) =
              lift-eq-ok (unpack_unchecked rt (w created.key).bytes) _ w (rw own at h) in
            inr (p, found, ground (arith, rest))
        | inr other ↦ inl (ground (arith, other))
      ]

  -- An account that is made a permission has the derived address and was no permission yet.
  create_permission_account-eq-ok :
      (program : Pubkey) (payer created system : AccountInfo) (swap authority : Pubkey) (w : World)
      {r : Unit {0} × World}
      → create_permission_account rt program payer created system swap authority w ≡ ok r
      → (created.key ≡ (derive_permission_pubkey_and_bump rt swap authority).0)
        × (system.key ≡ rt.system_program_id)
        × Fresh rt program created w
  unfolding create_permission_account
  create_permission_account-eq-ok program payer created system swap authority w h =
      let (address, r1) =
        fail_if-eq-ok (not (created.key == (derive_permission_pubkey_and_bump rt swap authority).0))
          _ _ w h in
      let (id, r2) = fail_if-eq-ok (not (system.key == rt.system_program_id)) _ _ w r1 in
      let (_, w1, passed, r3) = >>=-eq-ok (refuse_initialized rt program created) _ w r2 in
      (
        ground (arith, address),
        ground (arith, id),
        refuse_initialized-eq-ok program created w _ passed,
      )

  -- An initialization that succeeds was signed by the holder of an initialized super-admin
  -- permission of the swap; the new account has the address derived from the swap and the new
  -- authority, and it was not the program's or held a permission that was not initialized; and, once
  -- `create_permission_account` has run, the data of the new account alone changes, where the
  -- permission is packed.
  pub process_initialize_permission-Grants :
      (program : Pubkey) (swap account created signer payer system : AccountInfo)
      (rest : List AccountInfo) (authority : Pubkey) (admin can_update : Bool) (w w' : World)
      → process_initialize_permission rt program
          (swap ∷ account ∷ created ∷ signer ∷ payer ∷ system ∷ rest)
          authority
          admin
          can_update
          w
        ≡ ok (tt, w')
      → PermissionCreation rt program swap account created signer payer system authority admin
          can_update w w'
  unfolding process_initialize_permission
  process_initialize_permission-Grants program swap account created signer payer system rest
        authority admin can_update w w' h =
      let (owned, r1) = fail_if-eq-ok (not ((w swap.key).owner == program)) _ _ w h in
      let (signed, r2) = fail_if-eq-ok (not signer.is_signer) _ _ w r1 in
      let (granting, grants, r3) = after_unpack_permission rt account swap signer program _ w r2 in
      let (_, super, r4) = lift-eq-ok (validate_super_admin_permission granting) _ w r3 in
      let (_, w1, made, r5) =
        >>=-eq-ok (create_permission_account rt program payer created system swap.key authority) _ w
          r4 in
      let (address, _, fresh) =
        create_permission_account-eq-ok program payer created system swap.key authority w made in
      let (bytes, packed, r6) =
        lift-eq-ok
          (pack rt (new_permission swap.key authority admin can_update) (w1 created.key).bytes) _ w1
          r5 in
      record {
        granting = granting;
        middle = w1;
        written = bytes;
        signed = ground (arith, signed);
        owned = ground (arith, owned);
        grants = grants;
        super = super_admin granting super;
        address = address;
        fresh = fresh;
        made = made;
        packed = packed;
        after = ground (arith, r6);
      }
