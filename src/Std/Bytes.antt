-- ===== src/Std/Bytes.antt =====
-- `i64::to_ne_bytes`: the eight bytes of an integer, in the order of the machine.
use mathlib.Core.List.{reverse}
use nu_plugin_dns.Prelude.{ℕ, zero, suc, ◌/◌, ◌%◌, ℤ, to_bits, List, [], ◌∷◌}

pub data Endian : Type 0 where
  little big : Endian

-- The `k` lowest bytes, the lowest first.
unfoldable pub le_bytes : ℕ → ℕ → List ℕ
le_bytes zero n = []
le_bytes (suc k) n = (n % 256) ∷ le_bytes k (n / 256)

unfoldable pub to_ne_bytes : Endian → ℤ → List ℕ
to_ne_bytes little n = le_bytes 8 (to_bits n)
to_ne_bytes big n = reverse (le_bytes 8 (to_bits n))
