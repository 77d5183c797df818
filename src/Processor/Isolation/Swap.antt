-- ===== src/Processor/Isolation/Swap.antt =====
-- A swap does not change the program's own accounts (program/src/processor.rs).
use solana_psm.Common.{ℕ, ltb, List}
use solana_psm.Error.{SwapError}
use solana_psm.Math.{SplMath}
use solana_psm.Curve.Calculator.{TradeDirection}
use solana_psm.Curve.Base.{deposit_without_fees}
use solana_psm.Curve.Charging.{SwapResult}
use solana_psm.Runtime.{Pubkey, Runtime, AccountInfo, Mint}
use solana_psm.Runtime.Action.{lift}
use solana_psm.Runtime.Isolation.{
  IsIsolated, Keeps, Keeps-bind, Keeps-pure, Keeps-lift, Keeps-if, Keeps-of_same, Keeps-then,
}
use solana_psm.State.{SwapV1}
use solana_psm.Processor.Tokens.{some_or, get_current_timestamp_opt}
use solana_psm.Processor.Calls.{token_transfer}
use solana_psm.Processor.OwnerFee.{first, pay_host}
use solana_psm.Processor.Isolation.{Keeps-transfer, Keeps-pay_host, Keeps-pay_pool}
use solana_psm.Processor.Swap.{
  SwapAccounts, Quote, minting, reserves_less_fee, read_swap_accounts, check_swap, exchange,
  quote_of, pay_owner, settle_swap, process_swap,
}
use solana_psm.Processor.Swap.Checks.{check_swap-Pool, exchange-Exchange, quote_of-IsQuote}

Keeps-read_accounts :
    (program : Pubkey) (accounts : List AccountInfo) → Keeps program (read_swap_accounts accounts)
unfolding read_swap_accounts
Keeps-read_accounts program accounts = Keeps-then program accounts (λ a.
    Keeps-then program a.1 (λ b. Keeps-then program b.1 (λ c. Keeps-then program c.1 (λ d.
      Keeps-then program d.1 (λ e. Keeps-then program e.1 (λ f. Keeps-then program f.1 (λ g.
        Keeps-then program g.1 (λ h. Keeps-then program h.1 (λ i. Keeps-then program i.1 (λ j.
          Keeps-then program j.1 (λ k. Keeps-then program k.1 (λ l.
            Keeps-then program l.1
              (λ m. Keeps-then program m.1 (λ n. Keeps-pure program _))))))))))))))

module _ (m : SplMath) (rt : Runtime) (program : Pubkey) (isolated : IsIsolated rt program) where
  Keeps-pay_owner :
      (acc : SwapAccounts) (s : SwapV1) (direction : TradeDirection) (mint : Mint) (r : SwapResult)
      → Keeps program (pay_owner m rt acc s direction mint r)
  unfolding pay_owner
  Keeps-pay_owner acc s direction mint r =
      Keeps-bind program (lift (reserves_less_fee direction r)) _ (Keeps-lift program _)
        (λ reserves.
          Keeps-bind program (lift (get_current_timestamp_opt rt s)) _ (Keeps-lift program _)
            (λ timestamp.
              Keeps-bind program
                (lift (
                  some_or
                    (deposit_without_fees m s.swap_curve.calculator r.owner_fee reserves.0
                      reserves.1 mint.supply direction timestamp)
                    SwapError.fee_calculation_failure))
                _ (Keeps-lift program _)
                (λ amount.
                  Keeps-if program (ltb 0 amount) _ _
                    (Keeps-bind program (pay_host rt (minting acc) s (first acc.rest) amount) _
                      (Keeps-pay_host rt program isolated _ _ _ _)
                      (λ left. Keeps-pay_pool rt program isolated _ _ _ _ _))
                    (Keeps-pure program tt))))

  Keeps-settle : (acc : SwapAccounts) (q : Quote) → Keeps program (settle_swap m rt acc q)
  unfolding settle_swap
  Keeps-settle acc q =
      Keeps-bind program (token_transfer rt _ _ _ _ _ _ _ _ _) _
        (Keeps-transfer rt program isolated _ _ _ _ _ _ _ _ _)
        (λ _.
          Keeps-bind program _ _
            (Keeps-if program (ltb 0 q.result.owner_fee) _ _ (Keeps-pay_owner acc _ _ _ _)
              (Keeps-pure program tt))
            (λ _. Keeps-transfer rt program isolated _ _ _ _ _ _ _ _ _))

  pub Keeps-swap :
      (amount_in minimum : ℕ) (accounts : List AccountInfo)
      → Keeps program (process_swap m rt program amount_in minimum accounts)
  unfolding process_swap
  Keeps-swap amount_in minimum accounts =
      Keeps-bind program (read_swap_accounts accounts) _ (Keeps-read_accounts program accounts)
        (λ acc.
          Keeps-bind program (check_swap m rt program acc) _
            (Keeps-of_same program _ (λ w s w' h. (check_swap-Pool m rt program acc w s w' h).0))
            (λ s.
              Keeps-bind program (exchange m rt amount_in acc s) _
                (Keeps-of_same program _
                  (λ w x w' h. (exchange-Exchange m rt amount_in acc s w x.0 x.1 w' h).0))
                (λ x.
                  Keeps-bind program (quote_of m rt minimum acc s x.0 x.1) _
                    (Keeps-of_same program _
                      (λ w q w' h. (quote_of-IsQuote m rt minimum acc s x.0 x.1 w q w' h).0))
                    (λ q. Keeps-settle acc q))))
