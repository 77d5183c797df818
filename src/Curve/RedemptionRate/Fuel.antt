-- ===== src/Curve/RedemptionRate/Fuel.antt =====
-- The loop of `_rpow` ends because its counter is 0 (program/src/curve/redemption_rate.rs).
