-- ===== src/Processor/Initialize/Created.antt =====
-- What a new pool is, and that it is made once (program/src/processor.rs).
use solana_psm.Common.{◌≡◌, refl, sym, ap, ◌∙◌, true, Option, List, ok, err, ℕ}
use solana_psm.Error.{SwapError, from_swap_error}
use solana_psm.Math.{SplMath}
use solana_psm.Fees.{Fees}
use solana_psm.Curve.Base.{SwapCurve}
use solana_psm.Constraints.{SwapConstraints, ExtensionTypes}
use solana_psm.Runtime.{Pubkey, Runtime, IsRuntime, World, AccountInfo}
use solana_psm.Runtime.Action.{
  lift-eq-ok, pure-eq-ok, >>=-eq-ok, >>=-eq-ok_same, >>=-of_ok, >>=-of_err, with_data,
  with_data-same,
}
use solana_psm.State.{is_initialized, pack, unpack}
use solana_psm.State.RoundTrip.{IsSwap, is_initialized-pack, unpack-pack_ok}
use solana_psm.Processor.InitializeChecks.{
  InitializeAccounts, Found, read_initialize_accounts, find_accounts, check_initialize,
}
use solana_psm.Processor.InitializeChecks.Terms.{Passed, check_initialize-Passed}
use solana_psm.Processor.Initialize.{
  new_swap, mint_initial, grant_if_redemption_rate, store_swap, process_initialize,
}

-- What the handler did after its checks.
pub record Made (rt : Runtime) (program : Pubkey) (fees : Fees) (swap_curve : SwapCurve)
    (acc : InitializeAccounts) (found : Found) (w w' : World) : Type 0 where
  pub minted : World
  pub granted : World
  pub written : List ℕ
  pub mint : mint_initial rt swap_curve acc found.bump_seed w ≡ ok (tt, minted)
  pub grant : grant_if_redemption_rate rt program swap_curve acc found minted ≡ ok (tt, granted)
  pub packed :
      pack rt (new_swap fees swap_curve acc found) (granted acc.swap_info.key).bytes ≡ ok written
  pub after : w' ≡ with_data granted acc.swap_info.key written

module _ (m : SplMath) (rt : Runtime) (types : ExtensionTypes) where
  -- A pool that is made ran on an account of the program that held no pool, with the program
  -- address as the authority; the authority owns the reserves and may mint pool tokens, of which
  -- there are none, nobody else can spend or close the reserves or freeze the pool tokens, the
  -- first pool tokens go to an account that belongs to a program address, and the fee account is
  -- not the authority's; the two tokens and the pool token are different, the mints have allowed
  -- extensions only, the fees and the curve are valid and meet the constraints; then the first pool
  -- tokens are minted, the first permission is given on a redemption rate curve, and the pool's
  -- account is written.
  pub process_initialize-Passed :
      (program : Pubkey) (fees : Fees) (swap_curve : SwapCurve) (accounts : List AccountInfo)
      (constraints : Option SwapConstraints) (w w' : World) (acc : InitializeAccounts)
      → read_initialize_accounts accounts w ≡ ok (acc, w)
      → process_initialize m rt types program fees swap_curve accounts constraints w ≡ ok (tt, w')
      → (found : Found) × Passed m rt types program fees swap_curve constraints acc w found
        × Made rt program fees swap_curve acc found w w'
  unfolding process_initialize store_swap
  process_initialize-Passed program fees swap_curve accounts constraints w w' acc read h =
      let check = check_initialize-Passed m rt types program fees swap_curve constraints acc w in
      let (found, checked, r1) =
        >>=-eq-ok_same (check_initialize m rt types program fees swap_curve constraints acc) _ w
          (λ a v e. (check a v e).0)
          (sym (>>=-of_ok (read_initialize_accounts accounts) _ w acc w read) ∙ h) in
      let (_, minted, mint, r2) =
        >>=-eq-ok (mint_initial rt swap_curve acc found.bump_seed) _ w r1 in
      let (_, granted, grant, r3) =
        >>=-eq-ok (grant_if_redemption_rate rt program swap_curve acc found) _ minted r2 in
      let (written, packed, r4) =
        lift-eq-ok (pack rt (new_swap fees swap_curve acc found) (granted acc.swap_info.key).bytes)
          _ granted r3 in
      (
        found,
        (check found w checked).1,
        record {
          minted = minted;
          granted = granted;
          written = written;
          mint = mint;
          grant = grant;
          packed = packed;
          after = (pure-eq-ok tt tt _ w' r4).1;
        },
      )

  -- The account of a pool that is made is read back as the pool: initialized, with the authority's
  -- bump seed, the given accounts, fees and curve. (The numbers are in the range of the Rust
  -- fields, and the curve's type is that of its calculator.)
  pub unpack-process_initialize :
      (laws : IsRuntime rt) (program : Pubkey) (fees : Fees) (swap_curve : SwapCurve)
      (accounts : List AccountInfo) (constraints : Option SwapConstraints) (w w' : World)
      (acc : InitializeAccounts) (found : Found)
      → read_initialize_accounts accounts w ≡ ok (acc, w)
      → find_accounts rt types program acc w ≡ ok (found, w)
      → IsSwap (new_swap fees swap_curve acc found)
      → process_initialize m rt types program fees swap_curve accounts constraints w ≡ ok (tt, w')
      → unpack rt (w' acc.swap_info.key).bytes ≡ ok (new_swap fees swap_curve acc found)
  unpack-process_initialize laws program fees swap_curve accounts constraints w w' acc found read
        finds range h =
      let (x, passed, made) =
        process_initialize-Passed program fees swap_curve accounts constraints w w' acc read h in
      let e : x ≡ found = cc (passed.finds, finds) in
      let stored : (w' acc.swap_info.key).bytes ≡ made.written =
        ap (λ v. (v acc.swap_info.key).bytes) made.after
        ∙ with_data-same made.granted acc.swap_info.key made.written in
      rw stored (unpack-pack_ok rt laws _ _ made.written range refl (rw e at made.packed))

  find_accounts-again :
      (program : Pubkey) (acc : InitializeAccounts) (w : World)
      → is_initialized (w acc.swap_info.key).bytes ≡ true
      → find_accounts rt types program acc w ≡ err (from_swap_error SwapError.already_in_use)
  unfolding find_accounts
  find_accounts-again program acc w h = simp h

  -- Once a pool is made, its account cannot be made a pool again: whatever accounts, fees, curve and
  -- constraints the handler is then given, with this account as the pool's it ends with
  -- `AlreadyInUse`.
  pub process_initialize-again :
      (laws : IsRuntime rt) (program : Pubkey) (fees fees2 : Fees) (swap_curve curve2 : SwapCurve)
      (accounts accounts2 : List AccountInfo) (constraints constraints2 : Option SwapConstraints)
      (w w' : World) (acc acc2 : InitializeAccounts)
      → read_initialize_accounts accounts w ≡ ok (acc, w)
      → process_initialize m rt types program fees swap_curve accounts constraints w ≡ ok (tt, w')
      → read_initialize_accounts accounts2 w' ≡ ok (acc2, w')
      → acc2.swap_info.key ≡ acc.swap_info.key
      → process_initialize m rt types program fees2 curve2 accounts2 constraints2 w'
        ≡ err (from_swap_error SwapError.already_in_use)
  unfolding process_initialize check_initialize
  process_initialize-again laws program fees fees2 swap_curve curve2 accounts accounts2 constraints
        constraints2 w w' acc acc2 read h read2 same =
      let (found, passed, made) =
        process_initialize-Passed program fees swap_curve accounts constraints w w' acc read h in
      let stored : (w' acc2.swap_info.key).bytes ≡ made.written =
        ap (λ k. (w' k).bytes) same
        ∙ ap (λ v. (v acc.swap_info.key).bytes) made.after
        ∙ with_data-same made.granted acc.swap_info.key made.written in
      let used : is_initialized (w' acc2.swap_info.key).bytes ≡ true =
        rw stored (is_initialized-pack rt laws _ _ made.written refl made.packed) in
      >>=-of_ok (read_initialize_accounts accounts2) _ w' acc2 w' read2
      ∙ >>=-of_err (check_initialize m rt types program fees2 curve2 constraints2 acc2) _ w' _ (
          >>=-of_err (find_accounts rt types program acc2) _ w' _
            (find_accounts-again program acc2 w' used))
