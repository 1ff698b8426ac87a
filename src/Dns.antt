-- ===== src/Dns.antt =====
-- Parts of the DNS server beside its cache: the package dns.
pub mod Tracker
pub mod Batch
pub mod Resolver
pub mod Chain
pub mod Message
pub mod Local
pub mod Serve
mod Tests
