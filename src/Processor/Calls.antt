-- ===== src/Processor/Calls.antt =====
-- The instructions of the token program that the pool signs for (program/src/processor.rs).
use solana_psm.Common.{ℕ, [], ◌∷◌}
use solana_psm.Runtime.{Runtime, burn, mint_to, transfer_checked}
use solana_psm.Runtime.Action.{Action, ◌>>◌, lift, change}
use solana_psm.Processor.Tokens.{signer_seeds}

module _ (rt : Runtime) where
  unfoldable pub token_burn :
      (swap token_program burn_account mint authority bump_seed amount : ℕ) → Action (Unit {0})
  token_burn swap token_program burn_account mint authority bump_seed amount = do
    let ix = burn token_program burn_account mint authority amount
    lift (rt.build ix)
    change (
        rt.invoke_signed ix (burn_account ∷ mint ∷ authority ∷ token_program ∷ [])
          (signer_seeds swap bump_seed))

  unfoldable pub token_mint_to :
      (swap token_program mint destination authority bump_seed amount : ℕ) → Action (Unit {0})
  token_mint_to swap token_program mint destination authority bump_seed amount = do
    let ix = mint_to token_program mint destination authority amount
    lift (rt.build ix)
    change (
        rt.invoke_signed ix (mint ∷ destination ∷ authority ∷ token_program ∷ [])
          (signer_seeds swap bump_seed))

  unfoldable pub token_transfer :
      (swap token_program source mint destination authority bump_seed amount decimals : ℕ)
      → Action (Unit {0})
  token_transfer swap token_program source mint destination authority bump_seed amount decimals = do
    let ix = transfer_checked token_program source mint destination authority amount decimals
    lift (rt.build ix)
    change (
        rt.invoke_signed ix (source ∷ mint ∷ destination ∷ authority ∷ token_program ∷ [])
          (signer_seeds swap bump_seed))
