-- ===== src/Adblock.antt =====
-- Ad blocking: the package adblock.
pub mod Rule
pub mod Filter
pub mod Suffix
pub mod Named
pub mod Priority
pub mod Loader
mod Tests
