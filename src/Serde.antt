-- ===== src/Serde.antt =====
-- src/dns/serde.rs: conversions between Nushell's values and hickory's data.
pub mod Tidy
pub mod Util
pub mod Parse
pub mod Code
pub mod Query
pub mod Rdata
pub mod Message
