-- ===== src/Tests/Conversions.antt =====
-- Text, times and codes of src/dns/serde.rs at concrete inputs.
use nu_plugin_dns.Prelude.{◌-◌, ◌<◌, All, ℕ, ◌%◌, ◌^◌, pos, negsuc, [], ◌∷◌, List, length}
use nu_plugin_dns.Prelude.{none, some, ok, ◌≡◌, ◌≢◌, refl, arith}
use nu_plugin_dns.Nu.{Value, Span}
use nu_plugin_dns.Std.Utf8.{from_utf8, encode}
use nu_plugin_dns.Std.Decimal.{show_ℤ}
use nu_plugin_dns.Std.Bytes.{little}
use nu_plugin_dns.Constants.{Protocol}
use nu_plugin_dns.Config.{DnssecMode}
use nu_plugin_dns.Serde.Util.{string_or_binary}
use nu_plugin_dns.Serde.Util.Laws.{bytes_of, bytes_of-string_or_binary}
use nu_plugin_dns.Serde.Parse.{rtype_try_from, protocol_try_from, mode_try_from}
use nu_plugin_dns.Serde.Parse.Laws.{rtype_try_from-int_wraps}
use nu_plugin_dns.Serde.Query.{label}
use nu_plugin_dns.Serde.Query.Laws.Labels.{le_value, label-little}
use nu_plugin_dns.Tests.Data.{hickory, nu}

from_utf8_text : from_utf8 (0x68 ∷ 0xc3 ∷ 0xa9 ∷ 0xf0 ∷ 0x9f ∷ 0xa6 ∷ 0x80 ∷ []) ≡ some "hé🦀"
unfolding from_utf8
from_utf8_text = refl

encode_text : encode "hé🦀" ≡ 0x68 ∷ 0xc3 ∷ 0xa9 ∷ 0xf0 ∷ 0x9f ∷ 0xa6 ∷ 0x80 ∷ []
unfolding encode
encode_text = refl

from_utf8_cut : from_utf8 (0x68 ∷ 0xc3 ∷ []) ≡ none
unfolding from_utf8
from_utf8_cut = refl

from_utf8_overlong : from_utf8 (0xc0 ∷ 0x80 ∷ []) ≡ none
unfolding from_utf8
from_utf8_overlong = refl

show_ℤ_negative : show_ℤ (negsuc 1041) ≡ "-1042"
unfolding show_ℤ
show_ℤ_negative = refl

bytes_of-string_or_binary_example :
    bytes_of (string_or_binary (0xff ∷ 0x41 ∷ [])) ≡ some (0xff ∷ 0x41 ∷ [])
bytes_of-string_or_binary_example = bytes_of-string_or_binary (0xff ∷ 0x41 ∷ [])

-- -1 and 65535.
rtype_try_from-int_wraps_example :
    rtype_try_from hickory nu (Value.int (pos 65535) Span.unknown)
    ≡ rtype_try_from hickory nu (Value.int (negsuc 0) Span.unknown)
rtype_try_from-int_wraps_example = rtype_try_from-int_wraps hickory nu (negsuc 0) 1 Span.unknown

to_uppercase_quic : nu.to_uppercase "Quic" ≡ "QUIC"
unfolding from_utf8 encode
to_uppercase_quic = refl

protocol_quic : protocol_try_from nu (Value.string "Quic" Span.unknown) ≡ ok Protocol.quic
unfolding protocol_try_from from_utf8 encode
protocol_quic = refl

mode_strict : mode_try_from nu (Value.string "strict" Span.unknown) ≡ ok DnssecMode.strict
unfolding mode_try_from from_utf8 encode
mode_strict = refl

-- -254, whose low byte is 2.
two_ne_zero : (2 ^ 64 - 254) % 256 ≢ 0
two_ne_zero e = ground arith

label-little_example :
    (bytes : List ℕ) × (label little (Value.int (negsuc 253) Span.unknown) ≡ ok bytes)
    × (length bytes ≡ 8)
    × All (λ b. b < 256) bytes
    × (le_value bytes ≡ 2 ^ 64 - 254)
label-little_example = label-little (negsuc 253) Span.unknown (omega arith) two_ne_zero
