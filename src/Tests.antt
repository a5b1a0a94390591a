-- ===== src/Tests.antt =====
-- The theorems applied to concrete inputs.
mod Accounts
mod Fees
mod Notes
mod State
mod Simulator
mod Operations
mod Pools
mod Services
