-- ===== src/Command.antt =====
-- The command `dns query` of src/dns/commands/query.rs.
pub mod Stream
pub mod Query
pub mod Run
pub mod Signature
pub mod Examples
