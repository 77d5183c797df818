-- ===== src/Runtime.antt =====
-- What the program uses of the Solana runtime and of the token program's library: accounts and
-- their data, program addresses, the clock, the checks of the trait `Pack`, and the instructions
-- that it invokes. None of it is code of this repository: `Runtime` holds it as operations.
pub mod Action
pub mod Isolation
use solana_psm.Common.{
  ℕ, Bool, true, false, Option, List, Outcome, ok, err, ◌>>=◌, if◌then◌else◌, ◌==◌, ◌≡◌,
}
use solana_psm.Error.{ProgramError, Res}

-- The 32 bytes of an address, as the number that they spell in little-endian order.
abbrev pub Pubkey : Type 0
Pubkey = ℕ

-- A signed 64-bit integer; `negsuc n` is -(n + 1).
pub data I64 : Type 0 where
  pos : ℕ → I64
  negsuc : ℕ → I64

pub data AccountState : Type 0 where
  uninitialized : AccountState
  initialized : AccountState
  frozen : AccountState

pub record TokenAccount : Type 0 where
  pub mint : Pubkey
  pub owner : Pubkey
  pub amount : ℕ
  pub delegate : Option Pubkey
  pub state : AccountState
  pub close_authority : Option Pubkey

pub record Mint : Type 0 where
  pub mint_authority : Option Pubkey
  pub supply : ℕ
  pub decimals : ℕ
  pub freeze_authority : Option Pubkey

-- An `ExtensionType` by its number.
abbrev pub ExtensionType : Type 0
ExtensionType = ℕ

pub record MintState : Type 0 where
  pub base : Mint
  pub extension_types : Res (List ExtensionType)

-- An account on the ledger. Two `AccountInfo`s of one key share it.
pub record Account : Type 0 where
  pub owner : Pubkey
  pub lamports : ℕ
  pub bytes : List ℕ

abbrev pub World : Type 0
World = Pubkey → Account

pub record AccountInfo : Type 0 where
  pub key : Pubkey
  pub is_signer : Bool

-- An account of an instruction, by how it was made from its key and whether it signs.
pub data AccountMeta : Type 0 where
  new : Pubkey → Bool → AccountMeta
  new_readonly : Pubkey → Bool → AccountMeta

pub record Instruction : Type 0 where
  pub program_id : Pubkey
  pub accounts : List AccountMeta
  pub data_bytes : List ℕ

-- The instructions that the program sends to other programs.
pub data Invocation : Type 0 where
  burn : (token_program account mint authority amount : ℕ) → Invocation
  mint_to : (token_program mint account authority amount : ℕ) → Invocation
  transfer_checked :
      (token_program source mint destination authority amount decimals : ℕ) → Invocation
  create_account : (payer address lamports space owner : ℕ) → Invocation
  transfer : (payer address lamports : ℕ) → Invocation
  allocate : (address space : ℕ) → Invocation
  assign : (address owner : ℕ) → Invocation

pub record Runtime : Type 0 where
  -- The length check of `Pack::pack`, `Pack::unpack` and `Pack::unpack_unchecked`, on the length
  -- `LEN` of the type and that of the slice.
  pub check_len : ℕ → ℕ → Res (Unit {0})
  -- What `Pack::unpack` does with the value's `is_initialized`.
  pub check_initialized : Bool → Res (Unit {0})
  pub check_spl_token_program_account : Pubkey → Res (Unit {0})
  pub unpack_account : List ℕ → Res TokenAccount
  pub unpack_mint : List ℕ → Res MintState
  pub create_program_address : List (List ℕ) → Pubkey → Option Pubkey
  pub find_program_address : List (List ℕ) → Pubkey → Pubkey × ℕ
  -- `Clock::get()?.unix_timestamp`
  pub unix_timestamp : Res I64
  -- `Rent::get()`, as its function `minimum_balance`.
  pub rent : Res (ℕ → ℕ)
  -- The crate's own address, and that of the system program.
  pub program_id : Pubkey
  pub system_program_id : Pubkey
  -- The builder of a token instruction, which may refuse.
  pub build : Invocation → Res (Unit {0})
  -- `invoke_signed` on an instruction, the keys of its accounts and the signer's seeds.
  pub invoke_signed : Invocation → List Pubkey → List (List ℕ) → World → Res World

-- The documented behaviour of the checks of `Pack`.
pub record IsRuntime (rt : Runtime) : Type 0 where
  pub check_len_lem :
      (required given : ℕ)
      → rt.check_len required given
        ≡ (if given == required then ok tt else err ProgramError.invalid_account_data)
  pub check_initialized_lem :
      (b : Bool)
      → rt.check_initialized b ≡ (if b then ok tt else err ProgramError.uninitialized_account)
