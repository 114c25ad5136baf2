-- ===== src/Serde/Parse.antt =====
-- The four `TryFrom` conversions of src/dns/serde.rs: record types, classes, protocols and DNSSEC
-- modes, from a value.
pub mod Laws
use nu_plugin_dns.Prelude.{ℕ, ℤ, as_u16, String, ◌<>◌, Option, Bool, str_eq, if◌then◌else◌}
use nu_plugin_dns.Prelude.{ok, err, map_err, ◌>>=◌}
use nu_plugin_dns.Prelude.Outcome.{Res}
use nu_plugin_dns.Nu.{Value, Span, LabeledError, labeled, span_of}
use nu_plugin_dns.Nu.Protocol.{NuProtocol}
use nu_plugin_dns.Std.Decimal.{show_ℕ}
use nu_plugin_dns.Constants.{Protocol}
use nu_plugin_dns.Config.{DnssecMode}
use nu_plugin_dns.Hickory.{Hickory}

module _ (H : Hickory) (N : NuProtocol) where
  qtype_err : Span → String → LabeledError
  qtype_err span e = labeled "invalid record type" ("Error parsing record type: " <> e) span

  -- A code that hickory has no record type for is refused.
  known_type : H.RecordType → Span → Res LabeledError H.RecordType
  unfolding qtype_err
  known_type rtype span = elim (H.unknown_code rtype) [
    | Option.none ↦ ok rtype
    | Option.some r ↦ err (
        labeled "invalid record type" ("Error parsing record type: unknown code: " <> show_ℕ r)
          span)
  ]

  -- `RType::try_from`
  unfoldable pub rtype_try_from : Value → Res LabeledError H.RecordType
  unfolding known_type
  rtype_try_from (Value.string val span) =
      map_err (qtype_err span) (H.record_type_from_str (N.to_uppercase val))
  rtype_try_from (Value.int val span) = known_type (H.record_type_from_u16 (as_u16 val)) span
  rtype_try_from value = err (
      labeled "invalid record type"
        "Invalid type for record type argument. Must be either string or int." (span_of value))

  class_err : Span → String → LabeledError
  class_err span e = labeled "invalid DNS class" ("Error parsing DNS class: " <> e) span

  -- `DNSClass::try_from`
  unfoldable pub class_try_from : Value → Res LabeledError H.DnsClass
  unfolding class_err
  class_try_from (Value.string val span) =
      map_err (class_err span) (H.class_from_str (N.to_uppercase val))
  class_try_from (Value.int val span) = ok (H.class_from_u16 (as_u16 val))
  class_try_from value = err (
      labeled "invalid DNS class"
        "Invalid type for class type argument. Must be either string or int." (span_of value))

-- The arms of the match on the upper-case text.
protocol_of : String → Option Protocol
protocol_of name =
    if str_eq name "UDP"
    then Option.some Protocol.udp
    else if str_eq name "TCP"
    then Option.some Protocol.tcp
    else if str_eq name "TLS"
    then Option.some Protocol.tls
    else if str_eq name "HTTPS"
    then Option.some Protocol.https
    else if str_eq name "QUIC"
    then Option.some Protocol.quic
    else Option.none

mode_of : String → Option DnssecMode
mode_of name =
    if str_eq name "NONE"
    then Option.some DnssecMode.none
    else if str_eq name "STRICT"
    then Option.some DnssecMode.strict
    else if str_eq name "OPPORTUNISTIC"
    then Option.some DnssecMode.opportunistic
    else Option.none

module _ (N : NuProtocol) where
  -- `Protocol::try_from`
  unfoldable pub protocol_try_from : Value → Res LabeledError Protocol
  unfolding protocol_of
  protocol_try_from (Value.string val span) = elim (protocol_of (N.to_uppercase val)) [
    | Option.some p ↦ ok p
    | Option.none ↦ err (
        labeled "invalid protocol" ("Invalid or unsupported protocol: " <> N.to_uppercase val) span)
  ]
  protocol_try_from value = err (labeled "invalid input" "Input must be a string" (span_of value))

  -- `DnssecMode::try_from`
  unfoldable pub mode_try_from : Value → Res LabeledError DnssecMode
  unfolding mode_of
  mode_try_from (Value.string val span) = elim (mode_of (N.to_uppercase val)) [
    | Option.some m ↦ ok m
    | Option.none ↦ err (
        labeled "invalid DNSSEC mode"
          "Invalid DNSSEC mode. Must be one of: none, strict, opportunistic" span)
  ]
  mode_try_from value = err (labeled "invalid input" "Input must be a string" (span_of value))
