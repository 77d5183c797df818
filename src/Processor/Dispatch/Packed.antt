-- ===== src/Processor/Dispatch/Packed.antt =====
-- A packed instruction reaches its handler (program/src/processor.rs, program/src/instruction.rs).
use solana_psm.Common.{ℕ, ◌≡◌, ap, Bool, Option, List, ok}
use solana_psm.Math.{SplMath}
use solana_psm.Constraints.{ExtensionTypes, swap_constraints}
use solana_psm.Runtime.{Pubkey, Runtime, IsRuntime, World, AccountInfo}
use solana_psm.Runtime.Action.{lift, >>=-of_ok}
use solana_psm.Instruction.{SwapInstruction, pack, unpack}
use solana_psm.Instruction.RoundTrip.{IsInstruction, unpack-pack_instruction}
use solana_psm.Processor.Dispatch.{handle, process_with_constraints, process}

module _ (m : SplMath) (rt : Runtime) (laws : IsRuntime rt) (types : ExtensionTypes) where
  -- Packing an instruction works, and the program, given the bytes, does what the handler of this
  -- instruction does with the instruction's own numbers, the accounts and the build's constraints.
  -- (The numbers are in the range of the Rust fields, and a curve's type is that of its calculator.)
  pub process-pack :
      (i : SwapInstruction) (production : Bool) (owner_key : Option Pubkey) (program : Pubkey)
      (accounts : List AccountInfo) (w : World)
      → IsInstruction i
      → (bytes : List ℕ) × (pack i ≡ ok bytes)
        × (process m rt types production owner_key program accounts bytes w
            ≡ handle m rt types program accounts (swap_constraints production owner_key) i w)
  unfolding process process_with_constraints
  process-pack i production owner_key program accounts w range =
      let (bytes, packed, read) = unpack-pack_instruction rt laws i range in
      (bytes, packed, >>=-of_ok (lift (unpack rt bytes)) _ w i w (ap (λ x. lift x w) read))
