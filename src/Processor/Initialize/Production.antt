-- ===== src/Processor/Initialize/Production.antt =====
-- The pools that a production build makes (program/src/processor.rs, program/src/constraints.rs).
use solana_psm.Common.{
  ℕ, ◌<◌, ◌≡◌, ◌⊎◌, inl, inr, true, Option, some, List, ok, refl, sym, >>=-eq-ok, arith,
}
use solana_psm.Math.{SplMath}
use solana_psm.Fees as Fees
use solana_psm.Fees.{Fees, validate_fraction}
use solana_psm.Curve.Base.{
  CurveType, SwapCurve, constant_product, constant_price, offset, redemption_rate_curve, as_u8,
}
use solana_psm.Constraints.{
  SwapConstraints, ExtensionTypes, swap_constraints, validate_curve, contains_type,
  production_curve_types, production_fees, validate_fees,
}
use solana_psm.Constraints.Checks.{validate_fees-AtLeast}
use solana_psm.Runtime.{Pubkey, Runtime, World, AccountInfo, TokenAccount}
use solana_psm.Processor.Tokens.{unpack_token_account}
use solana_psm.Processor.InitializeChecks.{
  parse_owner_key, read_initialize_accounts, InitializeAccounts,
}
use solana_psm.Processor.Initialize.{process_initialize}
use solana_psm.Processor.Initialize.Created.{process_initialize-Passed}

-- The fees of a production pool: each trading and withdrawal fee is less than the whole, in ten
-- thousandths, and the host gets nothing.
pub record IsProductionFees (f : Fees) : Type 0 where
  pub trade : f.trade_fee_numerator < 10000
  pub trade_denominator : f.trade_fee_denominator ≡ 10000
  pub owner_trade : f.owner_trade_fee_numerator < 10000
  pub owner_trade_denominator : f.owner_trade_fee_denominator ≡ 10000
  pub owner_withdraw : f.owner_withdraw_fee_numerator < 10000
  pub owner_withdraw_denominator : f.owner_withdraw_fee_denominator ≡ 10000
  pub host : f.host_fee_numerator ≡ 0
  pub host_denominator : f.host_fee_denominator ≡ 10000

-- A fraction that is accepted over a positive denominator is less than one.
less_than_whole : (n d : ℕ) → 0 < d → validate_fraction n d ≡ ok tt → n < d
unfolding validate_fraction
less_than_whole n d h e = ground arith

allowed_type :
    (t : CurveType)
    → contains_type t production_curve_types ≡ true
    → (t ≡ constant_price) ⊎ (t ≡ redemption_rate_curve)
unfolding contains_type as_u8
allowed_type constant_product h = cc
allowed_type constant_price h = inl refl
allowed_type offset h = cc
allowed_type redemption_rate_curve h = inr refl

abbrev limits : Option Pubkey → SwapConstraints
limits owner_key = record {
  owner_key = some owner_key;
  valid_curve_types = production_curve_types;
  fees = production_fees;
}

validate-IsProductionFees :
    (owner_key : Option Pubkey) (f : Fees)
    → validate_fees (limits owner_key) f ≡ ok tt
    → Fees.validate f ≡ ok tt
    → IsProductionFees f
unfolding Fees.validate
validate-IsProductionFees owner_key f least valid =
    let l = (validate_fees-AtLeast (limits owner_key) f).0 least in
    let (_, e1, v1) =
      >>=-eq-ok (validate_fraction f.trade_fee_numerator f.trade_fee_denominator) _ valid in
    let (_, e2, v2) =
      >>=-eq-ok (validate_fraction f.owner_trade_fee_numerator f.owner_trade_fee_denominator) _
        v1 in
    let (_, e3, _) =
      >>=-eq-ok (validate_fraction f.owner_withdraw_fee_numerator f.owner_withdraw_fee_denominator)
        _ v2 in
    let below : (n d : ℕ) → d ≡ 10000 → validate_fraction n d ≡ ok tt → n < 10000 =
      λ n d whole e. omega (arith, whole, less_than_whole n d (omega (arith, whole)) e) in
    record {
      trade = below f.trade_fee_numerator f.trade_fee_denominator l.trade_denominator e1;
      trade_denominator = l.trade_denominator;
      owner_trade =
          below f.owner_trade_fee_numerator f.owner_trade_fee_denominator l.owner_trade_denominator
            e2;
      owner_trade_denominator = l.owner_trade_denominator;
      owner_withdraw =
          below f.owner_withdraw_fee_numerator f.owner_withdraw_fee_denominator
            l.owner_withdraw_denominator e3;
      owner_withdraw_denominator = l.owner_withdraw_denominator;
      host = l.host_numerator;
      host_denominator = l.host_denominator;
    }

validate_curve-allowed :
    (owner_key : Option Pubkey) (c : SwapCurve)
    → validate_curve (limits owner_key) c ≡ ok tt
    → (c.curve_type ≡ constant_price) ⊎ (c.curve_type ≡ redemption_rate_curve)
unfolding validate_curve
validate_curve-allowed owner_key c h = allowed_type c.curve_type (ground arith)

module _ (m : SplMath) (rt : Runtime) (types : ExtensionTypes) where
  -- A pool that a production build makes has a fee account that belongs to the build's owner, is on
  -- the constant price or the redemption rate curve, and has fees in ten thousandths: each of the
  -- trading and withdrawal fees less than the whole, and nothing for the host.
  pub process_initialize-Production :
      (program owner_key : Pubkey) (fees : Fees) (swap_curve : SwapCurve)
      (accounts : List AccountInfo) (w w' : World) (acc : InitializeAccounts)
      → read_initialize_accounts accounts w ≡ ok (acc, w)
      → process_initialize m rt types program fees swap_curve accounts
          (swap_constraints true (some owner_key))
          w
        ≡ ok (tt, w')
      → (fee_account : TokenAccount) × (unpack_token_account rt acc.fee_account_info
            (some acc.pool_mint_info.key)
            w
          ≡ ok fee_account)
        × (fee_account.owner ≡ owner_key)
        × ((swap_curve.curve_type ≡ constant_price)
            ⊎ (swap_curve.curve_type ≡ redemption_rate_curve))
        × IsProductionFees fees
  unfolding swap_constraints parse_owner_key
  process_initialize-Production program owner_key fees swap_curve accounts w w' acc read h =
      let (found, passed, _) =
        process_initialize-Passed m rt types program fees swap_curve accounts
          (swap_constraints true (some owner_key)) w w' acc read h in
      let (owner, curve, least) = passed.terms.constrained in
      let same : owner_key ≡ found.fee_account.owner = cc (owner) in
      (
        found.fee_account,
        passed.accounts.fee_account,
        sym same,
        validate_curve-allowed (some owner_key) swap_curve curve,
        validate-IsProductionFees (some owner_key) fees least passed.terms.fees_valid,
      )
