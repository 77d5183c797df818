-- ===== src/Constraints.antt =====
-- The constraints of a production deployment (program/src/constraints.rs).
pub mod Checks
use solana_psm.Common.{
  ℕ, Bool, true, false, ◌&&◌, ◌||◌, not, List, [], ◌∷◌, Option, none, some, ok, err, ◌>>=◌, leb,
  ◌==◌, if◌then◌else◌,
}
use solana_psm.Error.{SwapError, ProgramError, Res, from_swap_error}
use solana_psm.Fees.{Fees}
use solana_psm.Curve.Base.{CurveType, constant_price, redemption_rate_curve, as_u8, SwapCurve}
use solana_psm.Runtime.{Pubkey, ExtensionType, MintState}

-- The owner's key is kept as what parsing its text gives.
pub record SwapConstraints : Type 0 where
  pub owner_key : Option (Option Pubkey)
  pub valid_curve_types : List CurveType
  pub fees : Fees

-- `==` on curve types
abbrev pub same_type : CurveType → CurveType → Bool
same_type s t = as_u8 s == as_u8 t

unfoldable pub contains_type : CurveType → List CurveType → Bool
contains_type t [] = false
contains_type t (s ∷ ts) = same_type s t || contains_type t ts

unfoldable pub validate_curve : SwapConstraints → SwapCurve → Res (Unit {0})
validate_curve c curve =
    if contains_type curve.curve_type c.valid_curve_types
    then ok tt
    else err (from_swap_error SwapError.unsupported_curve_type)

unfoldable pub validate_fees : SwapConstraints → Fees → Res (Unit {0})
validate_fees c f =
    if leb c.fees.trade_fee_numerator f.trade_fee_numerator
      && f.trade_fee_denominator == c.fees.trade_fee_denominator
      && leb c.fees.owner_trade_fee_numerator f.owner_trade_fee_numerator
      && f.owner_trade_fee_denominator == c.fees.owner_trade_fee_denominator
      && leb c.fees.owner_withdraw_fee_numerator f.owner_withdraw_fee_numerator
      && f.owner_withdraw_fee_denominator == c.fees.owner_withdraw_fee_denominator
      && f.host_fee_numerator == c.fees.host_fee_numerator
      && f.host_fee_denominator == c.fees.host_fee_denominator
    then ok tt
    else err (from_swap_error SwapError.invalid_fee)

-- The production fees and curve types.
abbrev pub production_fees : Fees
production_fees = record {
  trade_fee_numerator = 0;
  trade_fee_denominator = 10000;
  owner_trade_fee_numerator = 0;
  owner_trade_fee_denominator = 10000;
  owner_withdraw_fee_numerator = 0;
  owner_withdraw_fee_denominator = 10000;
  host_fee_numerator = 0;
  host_fee_denominator = 10000;
}

abbrev pub production_curve_types : List CurveType
production_curve_types = constant_price ∷ redemption_rate_curve ∷ []

-- `SWAP_CONSTRAINTS`, with and without the feature `production`; `owner_key` is what parsing the text
-- of `OWNER_KEY` gives.
unfoldable pub swap_constraints : (production : Bool) → Option Pubkey → Option SwapConstraints
swap_constraints true owner_key = some (record {
  owner_key = some owner_key;
  valid_curve_types = production_curve_types;
  fees = production_fees;
})
swap_constraints false owner_key = none

-- The numbers of the extension types, which the token library assigns.
pub record ExtensionTypes : Type 0 where
  pub confidential_transfer_mint : ExtensionType
  pub metadata_pointer : ExtensionType
  pub token_metadata : ExtensionType
  pub mint_close_authority : ExtensionType

abbrev pub valid_pool_mint_extensions : ExtensionTypes → List ExtensionType
valid_pool_mint_extensions x =
    x.confidential_transfer_mint ∷ x.metadata_pointer ∷ x.token_metadata ∷ []

abbrev pub valid_token_a_b_extensions : ExtensionTypes → List ExtensionType
valid_token_a_b_extensions x =
    x.confidential_transfer_mint ∷ x.mint_close_authority ∷ x.metadata_pointer ∷ x.token_metadata
    ∷ []

unfoldable pub contains : ℕ → List ℕ → Bool
contains e [] = false
contains e (x ∷ xs) = e == x || contains e xs

unfoldable pub all_in : List ℕ → List ℕ → Bool
all_in [] valid = true
all_in (e ∷ es) valid = contains e valid && all_in es valid

unfoldable pub validate_mint_extensions : ExtensionTypes → MintState → Bool → Res (Unit {0})
validate_mint_extensions x state is_pool_mint = do
  extensions ← state.extension_types
  let valid = if is_pool_mint then valid_pool_mint_extensions x else valid_token_a_b_extensions x
  if all_in extensions valid
      then ok tt
      else err (from_swap_error SwapError.unsupported_token_extension)
