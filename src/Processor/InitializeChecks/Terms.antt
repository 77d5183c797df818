-- ===== src/Processor/InitializeChecks/Terms.antt =====
-- What the tokens, the fees and the curve of a new pool have passed (program/src/processor.rs).
use solana_psm.Common.{◌≡◌, ap, ◌∙◌, not, ◌||◌, Option, none, some, ok, ◌==◌, arith}
use solana_psm.Math.{SplMath}
use solana_psm.Fees
use solana_psm.Fees.{Fees}
use solana_psm.Curve.Base.{SwapCurve, validate_supply, validate as validate_calculator}
use solana_psm.Constraints.{SwapConstraints, ExtensionTypes, validate_curve, validate_fees}
use solana_psm.Error.{into}
use solana_psm.Runtime.{Pubkey, Runtime, World, TokenAccount}
use solana_psm.Runtime.Action.{
  fail_if-eq-ok, fail_if-eq-ok_last, lift-eq-ok, lift-eq-ok_last, pure-eq-ok, >>=-eq-ok_same,
}
use solana_psm.Processor.Tokens.{timestamp_of}
use solana_psm.Processor.InitializeChecks.{
  InitializeAccounts, Found, is_some, is_not, parse_owner_key, check_constraints, check_owners,
  check_tokens, find_accounts, check_terms, check_initialize,
}
use solana_psm.Processor.InitializeChecks.Passed.{
  into-eq-ok, is_some-eq-false, is_not-eq-false, Accounts, Owners, Tokens, Constrained, Terms,
  destination_owner, find_accounts-Accounts,
}

check_owners-Owners :
    (program owner : Pubkey) (acc : InitializeAccounts) (found : Found) (w : World) (u : Unit {0})
    (w' : World)
    → check_owners program owner acc found w ≡ ok (u, w')
    → (w' ≡ w) × Owners program owner acc found w
unfolding check_owners
check_owners-Owners program owner acc found w u w' h =
    let (a, r1) = fail_if-eq-ok (not (acc.authority_info.key == found.token_a.owner)) _ _ w h in
    let (b, r2) = fail_if-eq-ok (not (acc.authority_info.key == found.token_b.owner)) _ _ w r1 in
    let (own, r3) = fail_if-eq-ok (not ((w acc.swap_info.key).owner == program)) _ _ w r2 in
    let (out, r4) = fail_if-eq-ok (not (owner == found.destination.owner)) _ _ w r3 in
    let (fee, r5) = fail_if-eq-ok (acc.authority_info.key == found.fee_account.owner) _ _ w r4 in
    let (mint, after) =
      fail_if-eq-ok_last (is_not acc.authority_info.key found.pool_mint.mint_authority) _ w r5 in
    (
      after,
      record {
        token_a = ground (arith, a);
        token_b = ground (arith, b);
        swap = ground (arith, own);
        destination = ground (arith, out);
        fee_account = ground (arith, fee);
        mint = is_not-eq-false acc.authority_info.key found.pool_mint.mint_authority mint;
      },
    )

check_tokens-Tokens :
    (swap_curve : SwapCurve) (acc : InitializeAccounts) (found : Found) (w : World) (u : Unit {0})
    (w' : World)
    → check_tokens swap_curve acc found w ≡ ok (u, w')
    → (w' ≡ w) × Tokens swap_curve acc found
unfolding check_tokens
check_tokens-Tokens swap_curve acc found w u w' h =
    let (different, r1) = fail_if-eq-ok (found.token_a.mint == found.token_b.mint) _ _ w h in
    let (_, supplied, r2) =
      lift-eq-ok
        (into (validate_supply swap_curve.calculator found.token_a.amount found.token_b.amount)) _ w
        r1 in
    let (delegate_a, r3) = fail_if-eq-ok (is_some found.token_a.delegate) _ _ w r2 in
    let (delegate_b, r4) = fail_if-eq-ok (is_some found.token_b.delegate) _ _ w r3 in
    let (close_a, r5) = fail_if-eq-ok (is_some found.token_a.close_authority) _ _ w r4 in
    let (close_b, r6) = fail_if-eq-ok (is_some found.token_b.close_authority) _ _ w r5 in
    let (no_supply, r7) = fail_if-eq-ok (not (found.pool_mint.supply == 0)) _ _ w r6 in
    let (fee_mint, r8) =
      fail_if-eq-ok (not (acc.pool_mint_info.key == found.fee_account.mint)) _ _ w r7 in
    let (apart, r9) =
      fail_if-eq-ok
        (found.token_a.mint == acc.pool_mint_info.key
          || found.token_b.mint == acc.pool_mint_info.key)
        _ _ w r8 in
    let (no_freeze, after) = fail_if-eq-ok_last (is_some found.pool_mint.freeze_authority) _ w r9 in
    (
      after,
      record {
        different = ground (arith, different);
        supplied = into-eq-ok _ supplied;
        delegate_a = is_some-eq-false found.token_a.delegate delegate_a;
        delegate_b = is_some-eq-false found.token_b.delegate delegate_b;
        close_a = is_some-eq-false found.token_a.close_authority close_a;
        close_b = is_some-eq-false found.token_b.close_authority close_b;
        no_supply = ground (arith, no_supply);
        fee_mint = ground (arith, fee_mint);
        apart_a = ground (arith, apart);
        apart_b = ground (arith, apart);
        no_freeze = is_some-eq-false found.pool_mint.freeze_authority no_freeze;
      },
    )

check_constraints-Constrained :
    (constraints : Option SwapConstraints) (fees : Fees) (swap_curve : SwapCurve)
    (account : TokenAccount) (w : World) (u : Unit {0}) (w' : World)
    → check_constraints constraints fees swap_curve account w ≡ ok (u, w')
    → (w' ≡ w) × Constrained constraints fees swap_curve account.owner
unfolding check_constraints
check_constraints-Constrained none fees swap_curve account w u w' h =
    ((pure-eq-ok tt u w w' h).1, tt)
check_constraints-Constrained (some c) fees swap_curve account w u w' h =
    let (key, parsed, r1) = lift-eq-ok (parse_owner_key c.owner_key) _ w h in
    let (owner, r2) = fail_if-eq-ok (not (account.owner == key)) _ _ w r1 in
    let (_, curve, r3) = lift-eq-ok (validate_curve c swap_curve) _ w r2 in
    let (charged, after) = lift-eq-ok_last (validate_fees c fees) u w w' r3 in
    let same : key ≡ account.owner = ground (arith, owner) in
    (after, (parsed ∙ ap ok same, curve, charged))

module _ (m : SplMath) (rt : Runtime) where
  check_terms-Terms :
      (constraints : Option SwapConstraints) (fees : Fees) (swap_curve : SwapCurve)
      (account : TokenAccount) (w : World) (u : Unit {0}) (w' : World)
      → check_terms m rt constraints fees swap_curve account w ≡ ok (u, w')
      → (w' ≡ w) × Terms m rt constraints fees swap_curve account.owner
  unfolding check_terms
  check_terms-Terms constraints fees swap_curve account w u w' h =
      let constrained = check_constraints-Constrained constraints fees swap_curve account w in
      let (v, met, r1) =
        >>=-eq-ok_same (check_constraints constraints fees swap_curve account) _ w
          (λ a x e. (constrained a x e).0) h in
      let (_, fees_valid, r2) = lift-eq-ok (into (Fees.validate fees)) _ w r1 in
      let (timestamp, clock, r3) = lift-eq-ok (timestamp_of rt swap_curve.curve_type) _ w r2 in
      let (curve_valid, after) =
        lift-eq-ok_last (into (validate_calculator m swap_curve.calculator timestamp)) u w w' r3 in
      (
        after,
        record {
          timestamp = timestamp;
          constrained = (constrained v w met).1;
          fees_valid = into-eq-ok _ fees_valid;
          clock = clock;
          curve_valid = into-eq-ok _ curve_valid;
        },
      )

-- What a new pool has passed.
pub record Passed (m : SplMath) (rt : Runtime) (types : ExtensionTypes) (program : Pubkey)
    (fees : Fees) (swap_curve : SwapCurve) (constraints : Option SwapConstraints)
    (acc : InitializeAccounts) (w : World) (found : Found) : Type 0 where
  pub finds : find_accounts rt types program acc w ≡ ok (found, w)
  pub accounts : Accounts rt types program acc w found
  pub owners : Owners program (destination_owner rt program acc) acc found w
  pub tokens : Tokens swap_curve acc found
  pub terms : Terms m rt constraints fees swap_curve found.fee_account.owner

module _ (m : SplMath) (rt : Runtime) (types : ExtensionTypes) where
  pub check_initialize-Passed :
      (program : Pubkey) (fees : Fees) (swap_curve : SwapCurve)
      (constraints : Option SwapConstraints) (acc : InitializeAccounts) (w : World) (found : Found)
      (w' : World)
      → check_initialize m rt types program fees swap_curve constraints acc w ≡ ok (found, w')
      → (w' ≡ w) × Passed m rt types program fees swap_curve constraints acc w found
  unfolding check_initialize
  check_initialize-Passed program fees swap_curve constraints acc w found w' h =
      let at = find_accounts-Accounts rt types program acc w in
      let (x, e1, r1) =
        >>=-eq-ok_same (find_accounts rt types program acc) _ w (λ a v e. (at a v e).0) h in
      let owner = destination_owner rt program acc in
      let owned = check_owners-Owners program owner acc x w in
      let (u, e2, r2) =
        >>=-eq-ok_same (check_owners program owner acc x) _ w (λ a v e. (owned a v e).0) r1 in
      let tokens = check_tokens-Tokens swap_curve acc x w in
      let (v, e3, r3) =
        >>=-eq-ok_same (check_tokens swap_curve acc x) _ w (λ a v e. (tokens a v e).0) r2 in
      let terms = check_terms-Terms m rt constraints fees swap_curve x.fee_account w in
      let (t, e4, r4) =
        >>=-eq-ok_same (check_terms m rt constraints fees swap_curve x.fee_account) _ w
          (λ a v e. (terms a v e).0) r3 in
      let (same, after) = pure-eq-ok x found w w' r4 in
      let passed : Passed m rt types program fees swap_curve constraints acc w x = record {
        finds = e1;
        accounts = (at x w e1).1;
        owners = (owned u w e2).1;
        tokens = (tokens v w e3).1;
        terms = (terms t w e4).1;
      } in
      (after, rw same at passed)
