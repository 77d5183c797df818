-- ===== src/Curve.antt =====
-- The swap curves (program/src/curve).
pub mod Calculator
pub mod ConstantProduct
pub mod Priced
pub mod ConstantPrice
pub mod Offset
pub mod RedemptionRate
pub mod Base
pub mod Charging
pub mod Shares
pub mod Encoding
