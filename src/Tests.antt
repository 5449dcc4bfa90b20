-- ===== src/Tests.antt =====
-- Concrete runs of the model: a pool with both tranches, a runtime that accepts every instruction,
-- and each theorem applied to them.
mod Fixtures
mod Accounts
mod Pricing
mod Tranches
mod Handlers
mod Records
mod Settings
mod Books
mod Authorities
mod System
mod Wire
mod Bank
mod Backing
mod Entry
