-- ===== src/Serde/Util/Laws.antt =====
-- What the helpers of the module `util` of src/dns/serde.rs keep of their input.
use nu_plugin_dns.Prelude.{ℕ, ◌+◌, ◌*◌, ◌^◌, ◌<◌, ◌-◌, pos, negsuc, as_u64, as_i64, List}
use nu_plugin_dns.Prelude.{Option, Option-cases, inl, inr, ◌≡◌, ap, ◌%◌, arith}
use nu_plugin_dns.Nu.{Value, Span}
use nu_plugin_dns.Std.Utf8.{from_utf8, encode}
use nu_plugin_dns.Std.Utf8.RoundTrip.{encode-from_utf8}
use nu_plugin_dns.Serde.Util.{string_or_binary, sec_to_duration}

-- The bytes that a text or binary value stands for.
abbrev pub bytes_of : Value → Option (List ℕ)
bytes_of (Value.string s _) = Option.some (encode s)
bytes_of (Value.binary b _) = Option.some b
bytes_of _ = Option.none

-- `string_or_binary` loses no byte: it gives a text or binary value, whose bytes are those given.
pub bytes_of-string_or_binary :
    (bytes : List ℕ) → bytes_of (string_or_binary bytes) ≡ Option.some bytes
unfolding string_or_binary
bytes_of-string_or_binary bytes = elim (Option-cases (from_utf8 bytes)) [
  | inl invalid ↦ ground arith
  | inr (s, valid) ↦ ground (arith, encode-from_utf8 bytes valid)
]

as_i64-pos : (n : ℕ) → n < 2 ^ 63 → as_i64 n ≡ pos n
as_i64-pos n h = ground arith

as_i64-negsuc : (n k : ℕ) → n % 2 ^ 64 ≡ 2 ^ 64 - 1 - k → k < 2 ^ 63 → as_i64 n ≡ negsuc k
as_i64-negsuc n k e h = ground arith

-- A 32-bit number of seconds is shown as exactly that many nanoseconds.
pub sec_to_duration-u32 :
    (sec : ℕ)
    → sec < 2 ^ 32
    → sec_to_duration sec ≡ Value.duration (pos (sec * 10 ^ 9)) Span.unknown
unfolding sec_to_duration
sec_to_duration-u32 sec h =
    ap (λ t. Value.duration t Span.unknown) (as_i64-pos (sec * 10 ^ 9) (omega arith))

-- A negative 32-bit number of seconds is shown as exactly that many nanoseconds, though the code
-- passes it through `as u64`.
sec_to_duration-i32 :
    (n : ℕ)
    → n < 2 ^ 31
    → sec_to_duration (as_u64 (negsuc n))
      ≡ Value.duration (negsuc ((n + 1) * 10 ^ 9 - 1)) Span.unknown
unfolding sec_to_duration
sec_to_duration-i32 n h =
    let small : as_u64 (negsuc n) ≡ 2 ^ 64 - 1 - n = omega arith in
    ap (λ t. Value.duration t Span.unknown)
      (as_i64-negsuc (as_u64 (negsuc n) * 10 ^ 9) ((n + 1) * 10 ^ 9 - 1) (omega arith)
        (omega arith))
