-- ===== src/Gslb.antt =====
-- Global server load balancing: the package gslb.
pub mod Types
pub mod Database
pub mod Policies
pub mod Pools
pub mod Coherence
pub mod History
pub mod Members
pub mod Engine
pub mod Select
pub mod Resolve
pub mod Health
pub mod Runners
mod Tests
