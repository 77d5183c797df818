-- ===== src/Processor/InitializeChecks/Passed.antt =====
-- What the accounts of a new pool have passed (program/src/processor.rs).
use solana_psm.Common.{
  ℕ, ◌≡◌, ◌≢◌, refl, sym, ap, ◌∙◌, Bool, true, false, not, ◌||◌, Option, none, some, List, [], ◌∷◌,
  Outcome, ok, err, panic, ◌==◌, arith,
}
use solana_psm.Common
use solana_psm.Common.Bytes.{to_le_bytes}
use solana_psm.Error.{SwapError, into}
use solana_psm.Math.{SplMath}
use solana_psm.Fees
use solana_psm.Fees.{Fees}
use solana_psm.Curve.Base.{SwapCurve, validate_supply, validate as validate_calculator}
use solana_psm.Constraints.{
  SwapConstraints, ExtensionTypes, validate_curve, validate_fees, validate_mint_extensions,
}
use solana_psm.Runtime.{Pubkey, Runtime, World, AccountInfo, MintState}
use solana_psm.Runtime.Action.{fail_if-eq-ok, lift-eq-ok, pure-eq-ok}
use solana_psm.State.{is_initialized}
use solana_psm.Processor.Tokens.{unpack_token_account, mint_of, timestamp_of}
use solana_psm.Processor.InitializeChecks.{
  InitializeAccounts, Found, is_some, is_not, destination_seed, parse_owner_key, checked_mint,
  find_accounts,
}

pub into-eq-ok : {A : Type 0} (x : Outcome SwapError A) {a : A} → into x ≡ ok a → x ≡ ok a
into-eq-ok (ok a) h = cc
into-eq-ok (err e) h = cc
into-eq-ok panic h = cc

pub is_some-eq-false : {A : Type 0} (x : Option A) → is_some x ≡ false → x ≡ none
is_some-eq-false none h = refl
is_some-eq-false (some a) h = cc

pub is_not-eq-false : (key : Pubkey) (x : Option Pubkey) → is_not key x ≡ false → x ≡ some key
is_not-eq-false key none h = cc
is_not-eq-false key (some k) h = let e : k ≡ key = ground (arith, h) in ap some e

-- The mint of an account, with allowed extensions.
pub record HasMint (rt : Runtime) (types : ExtensionTypes) (w : World) (is_pool_mint : Bool)
    (info : AccountInfo) (state : MintState) : Type 0 where
  pub mint_read : mint_of rt info w ≡ ok state
  pub extensions : validate_mint_extensions types state is_pool_mint ≡ ok tt

-- The account is not a pool, the authority is its program address, and the others are token
-- accounts and mints of one another.
pub record Accounts (rt : Runtime) (types : ExtensionTypes) (program : Pubkey)
    (acc : InitializeAccounts) (w : World) (found : Found) : Type 0 where
  pub fresh : is_initialized (w acc.swap_info.key).bytes ≡ false
  pub address :
      rt.find_program_address (to_le_bytes 32 acc.swap_info.key ∷ []) program
      ≡ (acc.authority_info.key, found.bump_seed)
  pub token_a :
      unpack_token_account rt acc.token_a_info (some acc.token_a_mint_info.key) w ≡ ok found.token_a
  pub token_b :
      unpack_token_account rt acc.token_b_info (some acc.token_b_mint_info.key) w ≡ ok found.token_b
  pub fee_account :
      unpack_token_account rt acc.fee_account_info (some acc.pool_mint_info.key) w
      ≡ ok found.fee_account
  pub destination :
      unpack_token_account rt acc.destination_info (some acc.pool_mint_info.key) w
      ≡ ok found.destination
  pub pool_mint : MintState
  pub pool_mint_base : found.pool_mint ≡ pool_mint.base
  pub has_pool_mint : HasMint rt types w true acc.pool_mint_info pool_mint
  pub has_mint_a : HasMint rt types w false acc.token_a_mint_info found.token_a_mint
  pub has_mint_b : HasMint rt types w false acc.token_b_mint_info found.token_b_mint

-- The authority owns the reserves and the pool mint, and not the fee account; no one can spend
-- from the destination.
pub record Owners (program destination_owner : Pubkey) (acc : InitializeAccounts) (found : Found)
    (w : World) : Type 0 where
  pub token_a : found.token_a.owner ≡ acc.authority_info.key
  pub token_b : found.token_b.owner ≡ acc.authority_info.key
  pub swap : (w acc.swap_info.key).owner ≡ program
  pub destination : found.destination.owner ≡ destination_owner
  pub fee_account : found.fee_account.owner ≢ acc.authority_info.key
  pub mint : found.pool_mint.mint_authority ≡ some acc.authority_info.key

-- The two tokens and the pool token are different, no one else can move the reserves, and there are
-- no pool tokens.
pub record Tokens (swap_curve : SwapCurve) (acc : InitializeAccounts) (found : Found) : Type 0 where
  pub different : found.token_a.mint ≢ found.token_b.mint
  pub supplied :
      validate_supply swap_curve.calculator found.token_a.amount found.token_b.amount ≡ ok tt
  pub delegate_a : found.token_a.delegate ≡ none
  pub delegate_b : found.token_b.delegate ≡ none
  pub close_a : found.token_a.close_authority ≡ none
  pub close_b : found.token_b.close_authority ≡ none
  pub no_supply : found.pool_mint.supply ≡ 0
  pub fee_mint : found.fee_account.mint ≡ acc.pool_mint_info.key
  pub apart_a : found.token_a.mint ≢ acc.pool_mint_info.key
  pub apart_b : found.token_b.mint ≢ acc.pool_mint_info.key
  pub no_freeze : found.pool_mint.freeze_authority ≡ none

-- What a deployment's constraints ask, where there are any.
abbrev pub Constrained : Option SwapConstraints → Fees → SwapCurve → (fee_owner : Pubkey) → Type 0
Constrained none fees swap_curve fee_owner = Unit
Constrained (some c) fees swap_curve fee_owner =
    (parse_owner_key c.owner_key ≡ ok fee_owner)
    × (validate_curve c swap_curve ≡ ok tt)
    × (validate_fees c fees ≡ ok tt)

pub record Terms (m : SplMath) (rt : Runtime) (constraints : Option SwapConstraints) (fees : Fees)
    (swap_curve : SwapCurve) (fee_owner : Pubkey) : Type 0 where
  pub timestamp : Option ℕ
  pub constrained : Constrained constraints fees swap_curve fee_owner
  pub fees_valid : Fees.validate fees ≡ ok tt
  pub clock : timestamp_of rt swap_curve.curve_type ≡ ok timestamp
  pub curve_valid : validate_calculator m swap_curve.calculator timestamp ≡ ok tt

-- The seeds of the owner of the first pool tokens.
abbrev pub destination_owner : Runtime → Pubkey → InitializeAccounts → Pubkey
destination_owner rt program acc =
    (rt.find_program_address (destination_seed ∷ to_le_bytes 32 acc.swap_info.key ∷ []) program).0

module _ (rt : Runtime) (types : ExtensionTypes) where
  checked_mint-HasMint :
      (is_pool_mint : Bool) (info : AccountInfo) (w : World) (state : MintState)
      → checked_mint rt types is_pool_mint info w ≡ ok state
      → HasMint rt types w is_pool_mint info state
  unfolding checked_mint
  checked_mint-HasMint is_pool_mint info w state h =
      let (found, mint_read, h1) = Common.>>=-eq-ok (mint_of rt info w) _ h in
      let (_, extensions, h2) =
        Common.>>=-eq-ok (validate_mint_extensions types found is_pool_mint) _ h1 in
      let same : found ≡ state = cc (h2) in
      let has : HasMint rt types w is_pool_mint info found = record {
        mint_read = mint_read;
        extensions = extensions;
      } in
      rw same at has

  pub find_accounts-Accounts :
      (program : Pubkey) (acc : InitializeAccounts) (w : World) (found : Found) (w' : World)
      → find_accounts rt types program acc w ≡ ok (found, w')
      → (w' ≡ w) × Accounts rt types program acc w found
  unfolding find_accounts
  find_accounts-Accounts program acc w found w' h =
      let derived = rt.find_program_address (to_le_bytes 32 acc.swap_info.key ∷ []) program in
      let (fresh, r1) = fail_if-eq-ok (is_initialized (w acc.swap_info.key).bytes) _ _ w h in
      let (address, r2) = fail_if-eq-ok (not (acc.authority_info.key == derived.0)) _ _ w r1 in
      let (a, token_a, r3) =
        lift-eq-ok (unpack_token_account rt acc.token_a_info (some acc.token_a_mint_info.key) w) _ w
          r2 in
      let (b, token_b, r4) =
        lift-eq-ok (unpack_token_account rt acc.token_b_info (some acc.token_b_mint_info.key) w) _ w
          r3 in
      let (fee, fee_account, r5) =
        lift-eq-ok (unpack_token_account rt acc.fee_account_info (some acc.pool_mint_info.key) w) _
          w r4 in
      let (out, destination, r6) =
        lift-eq-ok (unpack_token_account rt acc.destination_info (some acc.pool_mint_info.key) w) _
          w r5 in
      let (mint, pool_mint, r7) =
        lift-eq-ok (checked_mint rt types true acc.pool_mint_info w) _ w r6 in
      let (mint_a, token_a_mint, r8) =
        lift-eq-ok (checked_mint rt types false acc.token_a_mint_info w) _ w r7 in
      let (mint_b, token_b_mint, r9) =
        lift-eq-ok (checked_mint rt types false acc.token_b_mint_info w) _ w r8 in
      let (same, after) = pure-eq-ok _ found w w' r9 in
      let key : derived.0 ≡ acc.authority_info.key = ground (arith, address) in
      let accounts : Accounts rt types program acc w (record {
        bump_seed = derived.1;
        token_a = a;
        token_b = b;
        fee_account = fee;
        destination = out;
        pool_mint = mint.base;
        token_a_mint = mint_a;
        token_b_mint = mint_b;
      }) =
        record {
          fresh = fresh;
          address = ap (λ k. (k, derived.1)) key;
          token_a = token_a;
          token_b = token_b;
          fee_account = fee_account;
          destination = destination;
          pool_mint = mint;
          pool_mint_base = refl;
          has_pool_mint = checked_mint-HasMint true acc.pool_mint_info w mint pool_mint;
          has_mint_a = checked_mint-HasMint false acc.token_a_mint_info w mint_a token_a_mint;
          has_mint_b = checked_mint-HasMint false acc.token_b_mint_info w mint_b token_b_mint;
        } in
      (after, rw (← same) accounts)
