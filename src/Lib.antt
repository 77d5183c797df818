-- ===== src/Lib.antt =====
-- Solana PSM: a model of the on-chain program and of what makes it correct.
--
-- The program keeps a pool of two tokens, A and B, in a swap account. The account holds the fees and
-- a curve, which says how the tokens are exchanged: at a constant product, at a constant price, at a
-- constant product with an offset on token B, or at a price that grows with time, the redemption
-- rate. Users swap, deposit and withdraw; the holder of a permission account sets the rates of a
-- redemption rate curve, and a super admin creates and updates permissions.
--
-- The files, and the code that each of them is about (paths from the repository's root):
--
--   Common            numbers, lists of bytes, outcomes, and the checked operations on `u64`, `u128`
--   Error             program/src/error.rs: `SwapError`, its codes, and errors as results
--   Math              the crate `spl_math`, as a parameter: `SplMath` holds its operations, and
--                     `IsSplMath` what the crate documents of them
--   Fees              program/src/curve/fees.rs: `Fees` and its methods
--   Curve/Calculator  program/src/curve/calculator.rs: what the curves share
--   Curve/ConstantProduct, Curve/ConstantPrice, Curve/Offset, Curve/RedemptionRate
--                     the file of the same name under program/src/curve/
--   Curve/Priced      the computations that constant_price.rs and redemption_rate.rs both spell out,
--                     at a price of token B
--   Curve/Base        program/src/curve/base.rs: `SwapCurve` and, in place of the trait object, the
--                     data type `Calculator` of the four curves
--   Curve/Charging    program/src/curve/base.rs: swaps, deposits and withdrawals with fees
--   Curve/Encoding    program/src/curve/base.rs and the `DynPack` of each curve: the packed curve
--   State             program/src/state.rs: `SwapV1` and `SwapVersion`
--   Constraints       program/src/constraints.rs
--   Runtime           the Solana runtime and the token library, as the parameter `Runtime`;
--                     `IsRuntime` says what the trait `Pack` documents. Runtime/Action is how a
--                     handler reads and changes the accounts
--   Permission        program/src/permission.rs: the account (Permission), reading and creating one
--                     (Permission/Account), the two handlers (Permission/Handlers)
--   Instruction       program/src/instruction.rs: the instructions, `pack` and `unpack`;
--                     Instruction/Builders is how clients build them
--   RedemptionRateProcessor
--                     program/src/redemption_rate_processor.rs: the handler of `SetRates`
--   Processor         program/src/processor.rs, a module for each part of it:
--     Processor/Tokens, Processor/Calls, Processor/Accounts
--                     token accounts, mints and the pool's authority, with the two methods of the
--                     swap account (program/src/state.rs) that only the processor calls; the calls of
--                     the token program; `check_accounts`
--     Processor/OwnerFee, Processor/Single
--                     what the handlers share: minting the owner's fee, and the side of one token
--     Processor/Swap, Processor/DepositAll, Processor/WithdrawAll, Processor/DepositSingle,
--     Processor/WithdrawSingle
--                     the handler of the instruction of that name, in stages: the accounts, the
--                     checks, the curve, the limits, the token moves
--     Processor/InitializeChecks, Processor/Initialize
--                     `process_initialize`: its checks, and what it does after them
--     Processor/Dispatch
--                     `process` and `process_with_constraints`
--     Processor/Isolation
--                     which handlers leave the program's own accounts alone; with Runtime/Isolation,
--                     where a hypothesis says that other programs cannot change them
--   Tests             runs at concrete inputs
--
-- How the code is read. A function that returns `Option` gives an outcome of the type `Calc`, one that
-- returns `Result` gives an `Outcome` with the error; both may also panic, and where the source uses
-- an operator that panics, the model panics. Integers are natural numbers; the checked operations say
-- where the width ends. An address is the number that its 32 bytes spell. A handler goes from the
-- accounts (`World`) to a value with the accounts after it, or to an error, after which the runtime
-- discards every change; two references to one account share it, since the accounts are looked up by
-- their key. A slice is a list of bytes, and what writes to a slice gives the new list.
--
-- The loop of `_rpow` runs on fuel. The exponent is a `u128` and is halved each round, so it is 0
-- after at most 128 rounds, which is the fuel that `_rpow` gives (Curve/RedemptionRate/Fuel). Nothing
-- else needs fuel.
--
-- A redemption rate pool is made with its first permission. An `Initialize` of a build with the feature
-- `production` has constraints; the owner's key in them is what parsing its text gives, which the
-- library of addresses does.
--
-- Not modelled: the generic `unpack` at the end of program/src/instruction.rs, which reads a buffer as
-- a struct in memory and has no caller; the entrypoint; logging; the clients in js/, the fuzzing harness
-- and the generated C header. The borrows that a handler holds on an account's data are not modelled: a
-- handler that is given one account in two places may panic where the model goes on. What the token
-- program does with an instruction is the runtime's: the model says which instructions are sent, in
-- which order and with which amounts.
pub mod Common
pub mod Error
pub mod Math
pub mod Curve
pub mod Fees
pub mod Runtime
pub mod State
pub mod Constraints
pub mod Permission
pub mod Instruction
pub mod RedemptionRateProcessor
pub mod Processor
pub mod Tests
