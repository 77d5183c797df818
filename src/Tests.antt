-- ===== src/Tests.antt =====
-- Runs of the models at concrete inputs.
pub mod Machine
pub mod Curves
pub mod Fees
pub mod Packing
pub mod Handlers
pub mod Swaps
pub mod Both
pub mod Single
pub mod Opening
pub mod Clients
