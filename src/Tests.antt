-- ===== src/Tests.antt =====
-- Sample inputs, and the theorems applied to them.
pub mod Samples
mod Runs
mod Meta
mod Refusals
mod Brokers
mod Storages
mod Coordinators
mod Registry
mod Sticky
mod Startup
mod Progress
