-- ===== src/RedemptionRateProcessor/Authority.antt =====
-- Who may set the rates of a curve, and what that changes
-- (program/src/redemption_rate_processor.rs).
use solana_psm.Common.{
  ℕ, ◌≡◌, ◌∙◌, sym, ap, ok, List, ◌∷◌, Bool, true, false, not, ◌==◌, fail_if, arith,
}
use solana_psm.Common
use solana_psm.Math.{SplMath}
use solana_psm.Curve.Base.{redemption_rate_curve, redemption_rate}
use solana_psm.Curve.RedemptionRate.{RedemptionRateCurve, set_rates}
use solana_psm.Runtime.{Pubkey, Runtime, World, AccountInfo, I64}
use solana_psm.Runtime.Action.{with_data, fail_if-eq-ok, lift-eq-ok}
use solana_psm.State.{SwapV1, pack, unpack}
use solana_psm.Permission.{Permission, validate_update_params_permission}
use solana_psm.Permission.Handlers.Authority.{Grants, after_unpack_permission}
use solana_psm.RedemptionRateProcessor.{
  as_u128, extract_curve, create_new_swap_state, process_curve_update,
}

abbrev with_rates : SwapV1 → RedemptionRateCurve → SwapV1
with_rates swap curve = record swap {
  swap_curve = record { curve_type = redemption_rate_curve; calculator = redemption_rate curve };
}

-- What an update of the rates was, where it ended well.
pub record RatesUpdate (m : SplMath) (rt : Runtime) (program : Pubkey)
    (swap account signer : AccountInfo) (ssr rho chi : ℕ) (w w' : World) : Type 0 where
  pub granting : Permission
  pub old : SwapV1
  pub curve : RedemptionRateCurve
  pub new_curve : RedemptionRateCurve
  pub timestamp : I64
  pub written : List ℕ
  pub signed : signer.is_signer ≡ true
  pub owned : (w swap.key).owner ≡ program
  pub grants : Grants rt program w account swap signer granting
  pub allowed : granting.can_update_parameters ≡ true
  pub stored : unpack rt (w swap.key).bytes ≡ ok old
  pub extracted : extract_curve (w swap.key).bytes ≡ ok curve
  pub clock : rt.unix_timestamp ≡ ok timestamp
  pub rates : set_rates m curve ssr rho chi (as_u128 timestamp) ≡ ok new_curve
  pub packed : pack rt (with_rates old new_curve) (w swap.key).bytes ≡ ok written
  pub after : w' ≡ with_data w swap.key written

allowed_update :
    (p : Permission) → validate_update_params_permission p ≡ ok tt → p.can_update_parameters ≡ true
unfolding validate_update_params_permission
allowed_update p h = ground arith

module _ (m : SplMath) (rt : Runtime) where
  create_new_swap_state-eq-ok :
      (ssr rho chi : ℕ) (curve : RedemptionRateCurve) (swap swap' : SwapV1)
      → create_new_swap_state m rt ssr rho chi curve swap ≡ ok swap'
      → (timestamp : I64) × (curve' : RedemptionRateCurve) × (rt.unix_timestamp ≡ ok timestamp)
        × (set_rates m curve ssr rho chi (as_u128 timestamp) ≡ ok curve')
        × (swap' ≡ with_rates swap curve')
  unfolding create_new_swap_state
  create_new_swap_state-eq-ok ssr rho chi curve swap swap' h =
      let (timestamp, clock, r) = Common.>>=-eq-ok rt.unix_timestamp _ h in
      let (curve', rates, r') =
        Common.>>=-eq-ok (set_rates m curve ssr rho chi (as_u128 timestamp)) _ r in
      (timestamp, curve', clock, rates, cc)

  -- An update of the rates that succeeds was signed by the holder of an initialized permission of
  -- the swap that allows updates; the swap account belongs to the program and held a redemption
  -- rate curve; `set_rates` accepted the new rates at the time of the clock; and the data of the
  -- swap account alone changes, where the swap has the new curve and keeps its other fields.
  pub process_curve_update-Grants :
      (program : Pubkey) (swap account signer : AccountInfo) (rest : List AccountInfo)
      (ssr rho chi : ℕ) (w w' : World)
      → process_curve_update m rt program (swap ∷ account ∷ signer ∷ rest) ssr rho chi w
        ≡ ok (tt, w')
      → RatesUpdate m rt program swap account signer ssr rho chi w w'
  unfolding process_curve_update
  process_curve_update-Grants program swap account signer rest ssr rho chi w w' h =
      let (owned, r1) = fail_if-eq-ok (not ((w swap.key).owner == program)) _ _ w h in
      let (signed, r2) = fail_if-eq-ok (not signer.is_signer) _ _ w r1 in
      let (granting, grants, r3) = after_unpack_permission rt account swap signer program _ w r2 in
      let (_, allowed, r4) = lift-eq-ok (validate_update_params_permission granting) _ w r3 in
      let (old, found, r5) = lift-eq-ok (unpack rt (w swap.key).bytes) _ w r4 in
      let (curve, extracted, r6) = lift-eq-ok (extract_curve (w swap.key).bytes) _ w r5 in
      let (new, created, r7) =
        lift-eq-ok (create_new_swap_state m rt ssr rho chi curve old) _ w r6 in
      let (bytes, packed, r8) = lift-eq-ok (pack rt new (w swap.key).bytes) _ w r7 in
      let (timestamp, curve', clock, rates, same) =
        create_new_swap_state-eq-ok ssr rho chi curve old new created in
      record {
        granting = granting;
        old = old;
        curve = curve;
        new_curve = curve';
        timestamp = timestamp;
        written = bytes;
        signed = ground (arith, signed);
        owned = ground (arith, owned);
        grants = grants;
        allowed = allowed_update granting allowed;
        stored = found;
        extracted = extracted;
        clock = clock;
        rates = rates;
        packed = sym (ap (λ s. pack rt s (w swap.key).bytes) same) ∙ packed;
        after = ground (arith, r8);
      }
