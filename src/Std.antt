-- ===== src/Std.antt =====
-- What src/dns uses of the Rust standard library, computed: UTF-8, decimal numbers, and the bytes
-- of an integer in memory.
pub mod Utf8
pub mod Decimal
pub mod Bytes
pub mod HashMap
