-- ===== src/Math.antt =====
-- The pure LP arithmetic of src/math.rs: pool pricing, tranches, the 256-bit division and the
-- high-water-mark floor, with their proofs in the child modules.
pub mod Pricing
pub mod RoundTrip
pub mod MulDiv
pub mod Tranche
pub mod Hwm
