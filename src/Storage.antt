-- ===== src/Storage.antt =====
-- What the package storage keeps of zones, records and sources of blocked domains.
pub mod Types
pub mod Wildcard
pub mod OneLevel
pub mod Lookup
pub mod Zones
pub mod Records
pub mod Sources
mod Tests
