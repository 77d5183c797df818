-- ===== src/RedemptionRateProcessor.antt =====
-- The handler of `SetRates` (program/src/redemption_rate_processor.rs).
pub mod Authority
use solana_psm.Common.{
  ℕ, ◌+◌, ◌-◌, Bool, true, false, not, List, Outcome, ok, err, panic, leb, ◌==◌, if◌then◌else◌,
  u128_mod,
}
use solana_psm.Common
use solana_psm.Common.Bytes.{length, take, drop, from_le_bytes, split_at}
use solana_psm.Error.{ProgramError, Res}
use solana_psm.Math.{SplMath}
use solana_psm.Curve.Base.{
  SwapCurve, CurveType, constant_product, constant_price, offset, redemption_rate_curve,
  redemption_rate, try_from,
}
use solana_psm.Curve.Encoding.{unpack_redemption_rate}
use solana_psm.Curve.RedemptionRate.{RedemptionRateCurve, set_rates}
use solana_psm.Runtime.{Pubkey, Runtime, World, AccountInfo, I64, pos, negsuc}
use solana_psm.Runtime.Action.{
  Action, ◌>>=◌, ◌>>◌, lift, fail_if, next, owner_of, data_of, write_data,
}
use solana_psm.State.{SwapV1, latest_len, pack, unpack}
use solana_psm.Permission.{Permission, validate_update_params_permission}
use solana_psm.Permission.Account.{unpack_permission}

-- `x as u128`: a negative number wraps round.
unfoldable pub as_u128 : I64 → ℕ
as_u128 (pos n) = n
as_u128 (negsuc n) = u128_mod - (n + 1)

abbrev only_redemption_rate : CurveType → List ℕ → Res RedemptionRateCurve
only_redemption_rate redemption_rate_curve input = unpack_redemption_rate input
only_redemption_rate constant_product input = err ProgramError.invalid_account_data
only_redemption_rate constant_price input = err ProgramError.invalid_account_data
only_redemption_rate offset input = err ProgramError.invalid_account_data

-- `array_ref!` panics on a shorter slice. The curve is in the last 65 of 356 bytes.
unfoldable pub extract_curve : List ℕ → Res RedemptionRateCurve
extract_curve input =
    let read : Res RedemptionRateCurve =
      Common.◌>>=◌ (split_at 1 (take 65 (drop (latest_len - 65) input))) (λ r.
        Common.◌>>=◌ (try_from (from_le_bytes r.0))
          (λ curve_type. only_redemption_rate curve_type r.1)) in
    if leb latest_len (length input) then read else panic

module _ (m : SplMath) (rt : Runtime) where
  unfoldable pub create_new_swap_state : ℕ → ℕ → ℕ → RedemptionRateCurve → SwapV1 → Res SwapV1
  create_new_swap_state ssr rho chi curve swap = Common.◌>>=◌ rt.unix_timestamp (λ timestamp.
      Common.◌>>=◌ (set_rates m curve ssr rho chi (as_u128 timestamp)) (λ new_calculator.
        ok (record swap {
          swap_curve = record {
            curve_type = redemption_rate_curve;
            calculator = redemption_rate new_calculator;
          };
        })))

  unfoldable pub process_curve_update : Pubkey → List AccountInfo → ℕ → ℕ → ℕ → Action (Unit {0})
  process_curve_update program_id accounts ssr rho chi = do
    (swap_info, r1) ← next accounts
    (permission_info, r2) ← next r1
    (signer_info, r3) ← next r2
    swap_owner ← owner_of swap_info
    fail_if (not (swap_owner == program_id)) ProgramError.illegal_owner
    fail_if (not signer_info.is_signer) ProgramError.missing_required_signature
    permission ← unpack_permission rt permission_info swap_info signer_info program_id
    lift (validate_update_params_permission permission)
    swap_data ← data_of swap_info
    swap ← lift (unpack rt swap_data)
    curve ← lift (extract_curve swap_data)
    new_swap_state ← lift (create_new_swap_state ssr rho chi curve swap)
    swap_data' ← lift (pack rt new_swap_state swap_data)
    write_data swap_info swap_data'
