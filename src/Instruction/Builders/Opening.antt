-- ===== src/Instruction/Builders/Opening.antt =====
-- The instruction that opens a pool, and the accounts that its handler reads
-- (program/src/instruction.rs, program/src/processor.rs).
use solana_psm.Common.{
  ℕ, ◌≡◌, refl, Bool, true, false, some, List, [], ◌∷◌, ◌++◌, ok, ◌>>=◌, if◌then◌else◌, ap, ◌∙◌,
}
use solana_psm.Error.{Res}
use solana_psm.Fees.{Fees}
use solana_psm.Curve.Base.{SwapCurve, redemption_rate_curve}
use solana_psm.Constraints.{same_type}
use solana_psm.Runtime.{World, AccountInfo, new, new_readonly, Instruction}
use solana_psm.Instruction as Data
use solana_psm.Instruction.{pack}
use solana_psm.Instruction.Builders
use solana_psm.Instruction.Builders.{RedemptionRateExtraAccounts, extra_metas}
use solana_psm.Instruction.Builders.Keys.{infos, Delivers, Keys, info, signer}
use solana_psm.Instruction.RoundTrip.{pack-initialize}
use solana_psm.Processor.InitializeChecks.{InitializeAccounts, read_initialize_accounts}

-- The accounts of the first permission.
abbrev extra_infos : Bool → RedemptionRateExtraAccounts → List AccountInfo
extra_infos true x =
    info x.permission_account ∷ info x.authority ∷ signer x.payer ∷ info x.system_program ∷ []
extra_infos false x = []

abbrev accounts_for : Keys → List AccountInfo → InitializeAccounts
accounts_for k rest = record {
  swap_info = signer k.swap;
  authority_info = info k.authority;
  token_a_info = info k.reserve_a;
  token_b_info = info k.reserve_b;
  pool_mint_info = info k.pool_mint;
  token_a_mint_info = info k.mint_a;
  token_b_mint_info = info k.mint_b;
  fee_account_info = info k.fee_account;
  destination_info = info k.user_pool;
  pool_token_program_info = info k.pool_token_program;
  rest = rest;
}

abbrev pub for_initialize : Keys → RedemptionRateExtraAccounts → SwapCurve → InitializeAccounts
for_initialize k x swap_curve =
    accounts_for k (extra_infos (same_type swap_curve.curve_type redemption_rate_curve) x)

-- What `initialize` does with the packed data, by whether the curve is the redemption rate curve.
abbrev opened : Keys → RedemptionRateExtraAccounts → Bool → List ℕ → Res Instruction
opened k x is_redemption_rate packed = do
  extra ← (if is_redemption_rate then extra_metas (some x) else ok [])
  ok (record {
    program_id = k.program_id;
    accounts =
        (new k.swap true
          ∷ new_readonly k.authority false
          ∷ new_readonly k.reserve_a false
          ∷ new_readonly k.reserve_b false
          ∷ new k.pool_mint false
          ∷ new_readonly k.mint_a false
          ∷ new_readonly k.mint_b false
          ∷ new_readonly k.fee_account false
          ∷ new k.user_pool false
          ∷ new_readonly k.pool_token_program false
          ∷ [])
        ++ extra;
    data_bytes = packed;
  })

opened-Delivers :
    (k : Keys) (x : RedemptionRateExtraAccounts) (b : Bool) (packed : List ℕ)
    (i : Data.SwapInstruction)
    → pack i ≡ ok packed
    → (w : World)
    → Delivers
        (opened k x b packed)
        k.program_id
        i
        read_initialize_accounts
        (accounts_for k (extra_infos b x))
        w
unfolding infos read_initialize_accounts
opened-Delivers k x true packed i packs w = (_, refl, refl, packs, refl)
opened-Delivers k x false packed i packs w = (_, refl, refl, packs, refl)

pub initialize-Delivers :
    (k : Keys) (fees : Fees) (swap_curve : SwapCurve) (x : RedemptionRateExtraAccounts) (w : World)
    → Delivers
        (Builders.initialize k.program_id k.pool_token_program k.swap k.authority k.reserve_a
          k.reserve_b k.pool_mint k.mint_a k.mint_b k.fee_account k.user_pool fees swap_curve
          (some x))
        k.program_id
        (Data.initialize (record { fees = fees; swap_curve = swap_curve }))
        read_initialize_accounts
        (for_initialize k x swap_curve)
        w
unfolding Builders.initialize
initialize-Delivers k fees swap_curve x w =
    let is_redemption_rate = same_type swap_curve.curve_type redemption_rate_curve in
    let packs = pack-initialize (record { fees = fees; swap_curve = swap_curve }) in
    let delivered = opened-Delivers k x is_redemption_rate _ _ packs w in
    (
      delivered.0,
      ap (λ bytes. bytes >>= opened k x is_redemption_rate) packs ∙ delivered.1,
      delivered.2,
      delivered.3,
      delivered.4,
    )
