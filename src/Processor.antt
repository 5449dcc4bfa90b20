-- ===== src/Processor.antt =====
-- The instruction handlers of src/processor.rs, a child module for each group.
pub mod Guards
pub mod Accrual
pub mod Deposit
pub mod Withdraw
pub mod Insurance
pub mod Config
pub mod Resolution
pub mod Init
pub mod Authority
pub mod Proxies
pub mod Entry
