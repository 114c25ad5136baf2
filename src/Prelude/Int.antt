-- ===== src/Prelude/Int.antt =====
-- Signed integers over the native numbers, and the casts that the code makes between widths.
use Prim.Native.Nat.{ℕ, ◌-◌, ◌%◌, ◌^◌}
use nu_plugin_dns.Prelude.Tests.{ltb, if◌then◌else◌}

-- `negsuc n` is -(n + 1).
pub data ℤ : Type 0 where
  pos : ℕ → ℤ
  negsuc : ℕ → ℤ

-- `as i64` of an unsigned number of any width: the low 64 bits, read in two's complement.
abbrev pub as_i64 : ℕ → ℤ
as_i64 n = let low = n % 2 ^ 64 in if ltb low (2 ^ 63) then pos low else negsuc (2 ^ 64 - 1 - low)

-- The bits of an `i64`, as an unsigned number.
abbrev pub to_bits : ℤ → ℕ
to_bits (pos n) = n
to_bits (negsuc n) = 2 ^ 64 - 1 - n

-- `as u16` of an `i64`: the low 16 bits.
abbrev pub as_u16 : ℤ → ℕ
as_u16 (pos n) = n % 2 ^ 16
as_u16 (negsuc n) = 2 ^ 16 - 1 - n % 2 ^ 16

-- `as u64` of a signed number of any width: it is sign-extended.
abbrev pub as_u64 : ℤ → ℕ
as_u64 (pos n) = n % 2 ^ 64
as_u64 (negsuc n) = 2 ^ 64 - 1 - n % 2 ^ 64
