-- ===== src/Processor/Isolation/Deposits.antt =====
-- Deposits do not change the program's own accounts (program/src/processor.rs).
use solana_psm.Common.{ℕ, ltb, List, Option, none, some, checked_add, checked_sub}
use solana_psm.Error.{SwapError}
use solana_psm.Math.{SplMath}
use solana_psm.Curve.Calculator.{by_direction}
use solana_psm.Runtime.{Pubkey, Runtime, AccountInfo}
use solana_psm.Runtime.Action.{lift, read}
use solana_psm.Runtime.Isolation.{
  IsIsolated, Keeps, Keeps-bind, Keeps-pure, Keeps-lift, Keeps-read, Keeps-if, Keeps-of_same,
  Keeps-then,
}
use solana_psm.State.{SwapV1}
use solana_psm.Processor.Tokens.{some_or, unpack_mint}
use solana_psm.Processor.Calls.{token_transfer}
use solana_psm.Processor.OwnerFee.{pay_host}
use solana_psm.Processor.Single.{Sides, owner_fee_in_pool_tokens}
use solana_psm.Processor.Isolation.{Keeps-transfer, Keeps-mint_to, Keeps-pay_host, Keeps-pay_pool}
use solana_psm.Processor.DepositAll
use solana_psm.Processor.DepositAll.{process_deposit_all_token_types}
use solana_psm.Processor.DepositAll.Checks as AllChecks
use solana_psm.Processor.DepositSingle
use solana_psm.Processor.DepositSingle.{process_deposit_single_token_type_exact_amount_in}
use solana_psm.Processor.DepositSingle.Checks as SingleChecks

Keeps-read_all :
    (program : Pubkey) (accounts : List AccountInfo)
    → Keeps program (DepositAll.read_deposit_accounts accounts)
unfolding DepositAll.read_deposit_accounts
Keeps-read_all program accounts = Keeps-then program accounts (λ a. Keeps-then program a.1 (λ b.
    Keeps-then program b.1 (λ c. Keeps-then program c.1 (λ d. Keeps-then program d.1 (λ e.
      Keeps-then program e.1 (λ f. Keeps-then program f.1 (λ g. Keeps-then program g.1 (λ h.
        Keeps-then program h.1 (λ i. Keeps-then program i.1 (λ j. Keeps-then program j.1 (λ k.
          Keeps-then program k.1 (λ l.
            Keeps-then program l.1
              (λ m. Keeps-then program m.1 (λ n. Keeps-pure program _))))))))))))))

Keeps-read_single :
    (program : Pubkey) (accounts : List AccountInfo)
    → Keeps program (DepositSingle.read_deposit_accounts accounts)
unfolding DepositSingle.read_deposit_accounts
Keeps-read_single program accounts = Keeps-then program accounts (λ a. Keeps-then program a.1 (λ b.
    Keeps-then program b.1 (λ c. Keeps-then program c.1 (λ d. Keeps-then program d.1 (λ e.
      Keeps-then program e.1 (λ f. Keeps-then program f.1 (λ g. Keeps-then program g.1 (λ h.
        Keeps-then program h.1 (λ i.
          Keeps-then program i.1 (λ j. Keeps-then program j.1 (λ k. Keeps-pure program _)))))))))))

module _ (m : SplMath) (rt : Runtime) (program : Pubkey) (isolated : IsIsolated rt program) where
  Keeps-settle_all :
      (acc : DepositAll.DepositAccounts) (s : SwapV1) (q : DepositAll.DepositQuote)
      → Keeps program (DepositAll.settle_deposit m rt acc s q)
  unfolding DepositAll.settle_deposit
  Keeps-settle_all acc s q =
      Keeps-bind program (read (unpack_mint rt acc.token_a_mint_info)) _ (Keeps-read program _)
        (λ a.
          Keeps-bind program (token_transfer rt _ _ _ _ _ _ _ _ _) _
            (Keeps-transfer rt program isolated _ _ _ _ _ _ _ _ _)
            (λ _.
              Keeps-bind program (read (unpack_mint rt acc.token_b_mint_info)) _
                (Keeps-read program _)
                (λ b.
                  Keeps-bind program (token_transfer rt _ _ _ _ _ _ _ _ _) _
                    (Keeps-transfer rt program isolated _ _ _ _ _ _ _ _ _)
                    (λ _. Keeps-mint_to rt program isolated _ _ _ _ _ _ _))))

  pub Keeps-deposit_all :
      (pool_tokens maximum_a maximum_b : ℕ) (accounts : List AccountInfo)
      → Keeps program
          (process_deposit_all_token_types m rt program pool_tokens maximum_a maximum_b accounts)
  unfolding process_deposit_all_token_types
  Keeps-deposit_all pool_tokens maximum_a maximum_b accounts =
      Keeps-bind program (DepositAll.read_deposit_accounts accounts) _
        (Keeps-read_all program accounts)
        (λ acc.
          Keeps-bind program (DepositAll.check_deposit m rt program acc) _
            (Keeps-of_same program _
              (λ w s w' h. (AllChecks.check_deposit-Pool m rt program acc w s w' h).0))
            (λ s.
              Keeps-bind program (DepositAll.price_of_deposit m rt pool_tokens acc s) _
                (Keeps-of_same program _ (λ w x w' h.
                  (AllChecks.price_of_deposit-Price m rt pool_tokens acc s w x w' h).0))
                (λ x.
                  Keeps-bind program
                    (DepositAll.quote_deposit m rt pool_tokens maximum_a maximum_b s x) _
                    (Keeps-of_same program _ (λ w q w' h.
                      (AllChecks.quote_deposit-IsQuote m rt pool_tokens maximum_a maximum_b s x w q
                        w' h).0))
                    (λ q. Keeps-settle_all acc s q))))

  Keeps-pay_pool_if_given :
      (acc : DepositSingle.DepositAccounts) (s : SwapV1) (left : ℕ) (info : Option AccountInfo)
      → Keeps program (DepositSingle.pay_pool_if_given m rt acc s left info)
  Keeps-pay_pool_if_given acc s left none = Keeps-pure program tt
  Keeps-pay_pool_if_given acc s left (some info) = Keeps-pay_pool rt program isolated _ _ _ _ _

  Keeps-pay_owner :
      (source : ℕ) (acc : DepositSingle.DepositAccounts) (side : Sides)
      (issue : DepositSingle.Issue)
      → Keeps program (DepositSingle.pay_owner m rt source acc side issue)
  unfolding DepositSingle.pay_owner
  Keeps-pay_owner source acc side issue =
      Keeps-bind program
        (lift (
          some_or
            (checked_add (by_direction side.direction side.token_a.amount side.token_b.amount)
              source)
            SwapError.fee_calculation_failure))
        _ (Keeps-lift program _)
        (λ grown.
          Keeps-bind program
            (lift (
              some_or (checked_sub grown issue.result.owner_fee) SwapError.fee_calculation_failure))
            _ (Keeps-lift program _)
            (λ reserve.
              Keeps-bind program
                (lift (
                  some_or (checked_add issue.pool_mint.supply issue.pool_token_amount)
                    SwapError.fee_calculation_failure))
                _ (Keeps-lift program _)
                (λ supply.
                  Keeps-bind program (lift (owner_fee_in_pool_tokens m rt _ _ _ _ _ _)) _
                    (Keeps-lift program _)
                    (λ fee.
                      Keeps-if program (ltb 0 fee) _ _
                        (Keeps-bind program (pay_host rt _ _ _ fee) _
                          (Keeps-pay_host rt program isolated _ _ _ _)
                          (λ left. Keeps-pay_pool_if_given acc _ left _))
                        (Keeps-pure program tt)))))

  Keeps-settle_single :
      (source : ℕ) (acc : DepositSingle.DepositAccounts) (side : Sides)
      (issue : DepositSingle.Issue)
      → Keeps program (DepositSingle.settle_deposit m rt source acc side issue)
  unfolding DepositSingle.settle_deposit
  Keeps-settle_single source acc side issue =
      Keeps-bind program _ _
        (Keeps-if program (ltb 0 issue.result.owner_fee) _ _ (Keeps-pay_owner source acc side issue)
          (Keeps-pure program tt))
        (λ _.
          Keeps-bind program (read (unpack_mint rt acc.source_token_mint_info)) _
            (Keeps-read program _)
            (λ mint.
              Keeps-bind program (token_transfer rt _ _ _ _ _ _ _ _ _) _
                (Keeps-transfer rt program isolated _ _ _ _ _ _ _ _ _)
                (λ _. Keeps-mint_to rt program isolated _ _ _ _ _ _ _)))

  pub Keeps-deposit_single :
      (source minimum : ℕ) (accounts : List AccountInfo)
      → Keeps program
          (process_deposit_single_token_type_exact_amount_in m rt program source minimum accounts)
  unfolding process_deposit_single_token_type_exact_amount_in
  Keeps-deposit_single source minimum accounts =
      Keeps-bind program (DepositSingle.read_deposit_accounts accounts) _
        (Keeps-read_single program accounts)
        (λ acc.
          Keeps-bind program (DepositSingle.check_deposit m rt program acc) _
            (Keeps-of_same program _
              (λ w s w' h. (SingleChecks.check_deposit-Pool m rt program acc w s w' h).0))
            (λ side.
              Keeps-bind program (DepositSingle.issue_deposit m rt source minimum acc side) _
                (Keeps-of_same program _ (λ w x w' h.
                  (SingleChecks.issue_deposit-IsIssue m rt source minimum acc side w x w' h).0))
                (λ issue. Keeps-settle_single source acc side issue)))
