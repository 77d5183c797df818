-- ===== src/Instruction/Builders/Keys.antt =====
-- What a builder is given and what its instruction carries (program/src/instruction.rs).
use solana_psm.Common.{◌≡◌, true, false, Option, none, some, List, [], ◌∷◌, ok}
use solana_psm.Error.{Res}
use solana_psm.Runtime.{Pubkey, World, AccountInfo, AccountMeta, new, new_readonly, Instruction}
use solana_psm.Runtime.Action.{Action}
use solana_psm.Instruction as Data
use solana_psm.Instruction.{pack}

-- The runtime gives the handler the accounts of an instruction in their order.
abbrev pub info_of : AccountMeta → AccountInfo
info_of (new key is_signer) = record { key = key; is_signer = is_signer }
info_of (new_readonly key is_signer) = record { key = key; is_signer = is_signer }

unfoldable pub infos : List AccountMeta → List AccountInfo
infos [] = []
infos (meta ∷ rest) = info_of meta ∷ infos rest

-- An instruction is built, carries the packed data to the program, and from its accounts the handler
-- reads the expected ones.
abbrev pub Delivers :
    {A : Type 0}
    → Res Instruction
    → Pubkey
    → Data.SwapInstruction
    → (List AccountInfo → Action A)
    → A
    → World
    → Type 0
Delivers built program_id i read_accounts expected w =
    (ix : Instruction) × (built ≡ ok ix)
    × (ix.program_id ≡ program_id)
    × (pack i ≡ ok ix.data_bytes)
    × (read_accounts (infos ix.accounts) w ≡ ok (expected, w))

-- The keys of a pool and of a user.
pub record Keys : Type 0 where
  pub program_id : Pubkey
  pub token_a_program : Pubkey
  pub token_b_program : Pubkey
  pub pool_token_program : Pubkey
  pub swap : Pubkey
  pub authority : Pubkey
  pub user_transfer_authority : Pubkey
  pub user_a : Pubkey
  pub user_b : Pubkey
  pub user_pool : Pubkey
  pub reserve_a : Pubkey
  pub reserve_b : Pubkey
  pub pool_mint : Pubkey
  pub fee_account : Pubkey
  pub mint_a : Pubkey
  pub mint_b : Pubkey

abbrev pub info : Pubkey → AccountInfo
info key = record { key = key; is_signer = false }

abbrev pub signer : Pubkey → AccountInfo
signer key = record { key = key; is_signer = true }

abbrev pub hosts : Option Pubkey → List AccountInfo
hosts none = []
hosts (some key) = info key ∷ []
