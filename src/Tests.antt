-- ===== src/Tests.antt =====
-- Runs of the code on small inputs, and the theorems applied to them.
pub mod Data
mod Machine
mod Scripts
pub mod Buckets
pub mod Samples
pub mod Connections
pub mod Inputs
pub mod Pools
