-- ===== src/Processor/Isolation/Withdrawals.antt =====
-- Withdrawals do not change the program's own accounts (program/src/processor.rs).
use solana_psm.Common.{ℕ, ltb, List, checked_sub}
use solana_psm.Error.{SwapError}
use solana_psm.Math.{SplMath}
use solana_psm.Curve.Calculator.{by_direction}
use solana_psm.Runtime.{Pubkey, Runtime, AccountInfo}
use solana_psm.Runtime.Action.{lift, read}
use solana_psm.Runtime.Isolation.{
  IsIsolated, Keeps, Keeps-bind, Keeps-pure, Keeps-lift, Keeps-read, Keeps-if, Keeps-of_same,
  Keeps-then,
}
use solana_psm.State.{SwapV1}
use solana_psm.Processor.Tokens.{some_or, to_u64, unpack_mint}
use solana_psm.Processor.Calls.{token_burn}
use solana_psm.Processor.OwnerFee.{pay_host}
use solana_psm.Processor.Single.{Sides, owner_fee_in_pool_tokens}
use solana_psm.Processor.Isolation.{Keeps-transfer, Keeps-burn, Keeps-pay_host, Keeps-pay_pool}
use solana_psm.Processor.WithdrawAll
use solana_psm.Processor.WithdrawAll.{process_withdraw_all_token_types}
use solana_psm.Processor.WithdrawAll.Checks as AllChecks
use solana_psm.Processor.WithdrawSingle
use solana_psm.Processor.WithdrawSingle.{process_withdraw_single_token_type_exact_amount_out}
use solana_psm.Processor.WithdrawSingle.Checks as SingleChecks

Keeps-read_all :
    (program : Pubkey) (accounts : List AccountInfo)
    → Keeps program (WithdrawAll.read_withdraw_accounts accounts)
unfolding WithdrawAll.read_withdraw_accounts
Keeps-read_all program accounts = Keeps-then program accounts (λ a. Keeps-then program a.1 (λ b.
    Keeps-then program b.1 (λ c. Keeps-then program c.1 (λ d. Keeps-then program d.1 (λ e.
      Keeps-then program e.1 (λ f. Keeps-then program f.1 (λ g. Keeps-then program g.1 (λ h.
        Keeps-then program h.1 (λ i. Keeps-then program i.1 (λ j. Keeps-then program j.1 (λ k.
          Keeps-then program k.1 (λ l. Keeps-then program l.1 (λ m.
            Keeps-then program m.1
              (λ n. Keeps-then program n.1 (λ o. Keeps-pure program _)))))))))))))))

Keeps-read_single :
    (program : Pubkey) (accounts : List AccountInfo)
    → Keeps program (WithdrawSingle.read_withdraw_accounts accounts)
unfolding WithdrawSingle.read_withdraw_accounts
Keeps-read_single program accounts = Keeps-then program accounts (λ a. Keeps-then program a.1 (λ b.
    Keeps-then program b.1 (λ c. Keeps-then program c.1 (λ d. Keeps-then program d.1 (λ e.
      Keeps-then program e.1 (λ f. Keeps-then program f.1 (λ g. Keeps-then program g.1 (λ h.
        Keeps-then program h.1 (λ i. Keeps-then program i.1 (λ j.
          Keeps-then program j.1 (λ k. Keeps-then program k.1 (λ l. Keeps-pure program _))))))))))))

module _ (m : SplMath) (rt : Runtime) (program : Pubkey) (isolated : IsIsolated rt program) where
  Keeps-pay_out :
      (acc : WithdrawAll.WithdrawAccounts) (s : SwapV1)
      (token_program reserve mint destination : AccountInfo) (amount : ℕ)
      → Keeps program (WithdrawAll.pay_out m rt acc s token_program reserve mint destination amount)
  unfolding WithdrawAll.pay_out
  Keeps-pay_out acc s token_program reserve mint destination amount =
      Keeps-if program (ltb 0 amount) _ _
        (Keeps-bind program (read (unpack_mint rt mint)) _ (Keeps-read program _)
          (λ _. Keeps-transfer rt program isolated _ _ _ _ _ _ _ _ _))
        (Keeps-pure program tt)

  Keeps-settle_all :
      (acc : WithdrawAll.WithdrawAccounts) (s : SwapV1) (r : WithdrawAll.Reading)
      (q : WithdrawAll.WithdrawQuote)
      → Keeps program (WithdrawAll.settle_withdraw m rt acc s r q)
  unfolding WithdrawAll.settle_withdraw
  Keeps-settle_all acc s r q =
      Keeps-bind program _ _
        (Keeps-if program (ltb 0 r.withdraw_fee) _ _
          (Keeps-bind program (lift (to_u64 r.withdraw_fee)) _ (Keeps-lift program _)
            (λ _. Keeps-transfer rt program isolated _ _ _ _ _ _ _ _ _))
          (Keeps-pure program tt))
        (λ _.
          Keeps-bind program (lift (to_u64 r.pool_token_amount)) _ (Keeps-lift program _) (λ burnt.
            Keeps-bind program (token_burn rt _ _ _ _ _ _ _) _
              (Keeps-burn rt program isolated _ _ _ _ _ _ _)
              (λ _.
                Keeps-bind program (WithdrawAll.pay_out m rt acc s _ _ _ _ _) _
                  (Keeps-pay_out acc s _ _ _ _ _) (λ _. Keeps-pay_out acc s _ _ _ _ _))))

  pub Keeps-withdraw_all :
      (pool_tokens minimum_a minimum_b : ℕ) (accounts : List AccountInfo)
      → Keeps program
          (process_withdraw_all_token_types m rt program pool_tokens minimum_a minimum_b accounts)
  unfolding process_withdraw_all_token_types
  Keeps-withdraw_all pool_tokens minimum_a minimum_b accounts =
      Keeps-bind program (WithdrawAll.read_withdraw_accounts accounts) _
        (Keeps-read_all program accounts)
        (λ acc.
          Keeps-bind program (WithdrawAll.check_withdraw m rt program acc) _
            (Keeps-of_same program _
              (λ w s w' h. (AllChecks.check_withdraw-Pool m rt program acc w s w' h).0))
            (λ s.
              Keeps-bind program (WithdrawAll.worth_of_withdraw m rt pool_tokens acc s) _
                (Keeps-of_same program _ (λ w x w' h.
                  (AllChecks.worth_of_withdraw-Worth m rt pool_tokens acc s w x w' h).0))
                (λ r.
                  Keeps-bind program (WithdrawAll.quote_withdraw m rt minimum_a minimum_b s r) _
                    (Keeps-of_same program _ (λ w q w' h.
                      (AllChecks.quote_withdraw-IsQuote m rt minimum_a minimum_b s r w q w' h).0))
                    (λ q. Keeps-settle_all acc s r q))))

  Keeps-pay_owner :
      (amount : ℕ) (acc : WithdrawSingle.WithdrawAccounts) (side : Sides)
      (cost : WithdrawSingle.Cost)
      → Keeps program (WithdrawSingle.pay_owner m rt amount acc side cost)
  unfolding WithdrawSingle.pay_owner
  Keeps-pay_owner amount acc side cost =
      Keeps-bind program
        (lift (
          some_or
            (checked_sub (by_direction side.direction side.token_a.amount side.token_b.amount)
              amount)
            SwapError.fee_calculation_failure))
        _ (Keeps-lift program _)
        (λ shrunk.
          Keeps-bind program
            (lift (
              some_or (checked_sub shrunk cost.result.owner_fee) SwapError.fee_calculation_failure))
            _ (Keeps-lift program _)
            (λ reserve.
              Keeps-bind program
                (lift (
                  some_or (checked_sub cost.pool_mint.supply cost.result.amount)
                    SwapError.fee_calculation_failure))
                _ (Keeps-lift program _)
                (λ supply.
                  Keeps-bind program (lift (owner_fee_in_pool_tokens m rt _ _ _ _ _ _)) _
                    (Keeps-lift program _)
                    (λ fee.
                      Keeps-if program (ltb 0 fee) _ _
                        (Keeps-bind program (pay_host rt _ _ _ fee) _
                          (Keeps-pay_host rt program isolated _ _ _ _)
                          (λ left. Keeps-pay_pool rt program isolated _ _ _ _ _))
                        (Keeps-pure program tt)))))

  Keeps-pay_owner_if_due :
      (amount : ℕ) (acc : WithdrawSingle.WithdrawAccounts) (side : Sides)
      (cost : WithdrawSingle.Cost)
      → Keeps program (WithdrawSingle.pay_owner_if_due m rt amount acc side cost)
  unfolding WithdrawSingle.pay_owner_if_due
  Keeps-pay_owner_if_due amount acc side cost =
      Keeps-if program (ltb 0 cost.result.owner_fee) _ _ (Keeps-pay_owner amount acc side cost)
        (Keeps-pure program tt)

  Keeps-settle_single :
      (amount : ℕ) (acc : WithdrawSingle.WithdrawAccounts) (side : Sides)
      (cost : WithdrawSingle.Cost)
      → Keeps program (WithdrawSingle.settle_withdraw m rt amount acc side cost)
  unfolding WithdrawSingle.settle_withdraw
  Keeps-settle_single amount acc side cost =
      Keeps-bind program _ _
        (Keeps-if program (ltb 0 cost.withdraw_fee) _ _
          (Keeps-bind program (lift (to_u64 cost.withdraw_fee)) _ (Keeps-lift program _)
            (λ _. Keeps-transfer rt program isolated _ _ _ _ _ _ _ _ _))
          (Keeps-pure program tt))
        (λ _.
          Keeps-bind program (lift (to_u64 cost.result.amount)) _ (Keeps-lift program _) (λ burnt.
            Keeps-bind program (token_burn rt _ _ _ _ _ _ _) _
              (Keeps-burn rt program isolated _ _ _ _ _ _ _)
              (λ _.
                Keeps-bind program (read (unpack_mint rt acc.destination_token_mint_info)) _
                  (Keeps-read program _)
                  (λ _. Keeps-transfer rt program isolated _ _ _ _ _ _ _ _ _))))

  pub Keeps-withdraw_single :
      (amount maximum : ℕ) (accounts : List AccountInfo)
      → Keeps program
          (process_withdraw_single_token_type_exact_amount_out m rt program amount maximum accounts)
  unfolding process_withdraw_single_token_type_exact_amount_out
  Keeps-withdraw_single amount maximum accounts =
      Keeps-bind program (WithdrawSingle.read_withdraw_accounts accounts) _
        (Keeps-read_single program accounts)
        (λ acc.
          Keeps-bind program (WithdrawSingle.check_withdraw m rt program acc) _
            (Keeps-of_same program _
              (λ w s w' h. (SingleChecks.check_withdraw-Pool m rt program acc w s w' h).0))
            (λ side.
              Keeps-bind program (WithdrawSingle.cost_of_withdraw m rt amount acc side) _
                (Keeps-of_same program _ (λ w x w' h.
                  (SingleChecks.cost_of_withdraw-IsCost m rt amount acc side w x w' h).0))
                (λ cost.
                  Keeps-bind program (WithdrawSingle.pay_owner_if_due m rt amount acc side cost) _
                    (Keeps-pay_owner_if_due amount acc side cost)
                    (λ _.
                      Keeps-bind program (WithdrawSingle.check_cost m rt maximum cost) _
                        (Keeps-of_same program _ (λ w u w' h.
                          (SingleChecks.check_cost-IsAllowed m rt maximum cost w u w' h).0))
                        (λ _. Keeps-settle_single amount acc side cost)))))
