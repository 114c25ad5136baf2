-- ===== src/Serde/Parse/Laws.antt =====
-- What the conversions of src/dns/serde.rs from values accept.
use nu_plugin_dns.Prelude.{
  ℤ, negsuc, ◌-◌, ◌<◌, ◌≤◌, ltb, if◌then◌else◌, Bool-cases, inl, inr, ℕ, ◌+◌, ◌*◌, ◌^◌, pos, as_u16,
  String, Option, ok,
}
use nu_plugin_dns.Prelude.{◌≡◌, ◌↔◌, sym, ap, ◌∙◌, eq_iff, arith}
use nu_plugin_dns.Prelude.{IsQuiet, map_err-IsQuiet}
use mathlib.Core.Option.{some-injective}
use nu_plugin_dns.Nu.{Value, Span}
use nu_plugin_dns.Nu.Protocol.{NuProtocol}
use nu_plugin_dns.Constants.{Protocol}
use nu_plugin_dns.Config.{DnssecMode}
use nu_plugin_dns.Hickory.{Hickory, IsLawful}
use nu_plugin_dns.Serde.Parse.{
  rtype_try_from, class_try_from, known_type, protocol_of, protocol_try_from, mode_of,
  mode_try_from,
}

-- The sum of an integer and a number.
abbrev pub plus : ℤ → ℕ → ℤ
plus (pos v) k = pos (v + k)
plus (negsuc n) k = if ltb n k then pos (k - 1 - n) else negsuc (n - k)

as_u16-plus : (i : ℤ) (k : ℕ) → as_u16 (plus i (k * 2 ^ 16)) ≡ as_u16 i
as_u16-plus (pos v) k = omega arith
as_u16-plus (negsuc n) k = elim (Bool-cases (ltb n (k * 2 ^ 16))) [
  | inl up ↦ rw up (let less : n < k * 2 ^ 16 = ground arith in omega arith)
  | inr down ↦ rw down (let more : k * 2 ^ 16 ≤ n = ground arith in omega arith)
]

module _ (H : Hickory) (N : NuProtocol) where
  known_type-ok :
      (t : H.RecordType) (span : Span) {u : H.RecordType}
      → known_type H N t span ≡ ok u
      → (t ≡ u) × (H.unknown_code t ≡ Option.none)
  unfolding known_type
  known_type-ok t span e = ground arith

  -- The record type that a non-negative integer gives has the integer's low 16 bits for its code,
  -- and it is one that hickory knows, if hickory's conversions of codes are lawful.
  rtype_try_from-int :
      IsLawful H
      → (v : ℕ) (span : Span) {t : H.RecordType}
      → rtype_try_from H N (Value.int (pos v) span) ≡ ok t
      → (H.record_type_to_u16 t ≡ as_u16 (pos v)) × (H.unknown_code t ≡ Option.none)
  unfolding rtype_try_from
  rtype_try_from-int L v span {t} e =
      let (same, known) = known_type-ok (H.record_type_from_u16 (as_u16 (pos v))) span e in
      (
        ap H.record_type_to_u16 (sym same) ∙ L.record_type_u16 (as_u16 (pos v)) (omega arith),
        ap H.unknown_code (sym same) ∙ known,
      )

  -- No integer is refused as a record type for its size: adding a multiple of 65536, to a negative
  -- one too, changes nothing in the outcome.
  pub rtype_try_from-int_wraps :
      (i : ℤ) (k : ℕ) (span : Span)
      → rtype_try_from H N (Value.int (plus i (k * 2 ^ 16)) span)
        ≡ rtype_try_from H N (Value.int i span)
  unfolding rtype_try_from
  rtype_try_from-int_wraps i k span =
      ap (λ c. known_type H N (H.record_type_from_u16 c) span) (as_u16-plus i k)

module _ (H : Hickory) (N : NuProtocol) where
  known_type-IsQuiet : (t : H.RecordType) (span : Span) → IsQuiet (known_type H N t span)
  unfolding known_type
  known_type-IsQuiet t span s p = ground arith

  pub rtype_try_from-IsQuiet :
      ((t : String) → IsQuiet (H.record_type_from_str t))
      → (v : Value) → IsQuiet (rtype_try_from H N v)
  unfolding rtype_try_from
  rtype_try_from-IsQuiet h (Value.string t span) =
      map_err-IsQuiet _ (H.record_type_from_str _) (h _)
  rtype_try_from-IsQuiet h (Value.int n span) = known_type-IsQuiet _ span
  rtype_try_from-IsQuiet h _ = λ s p. cc

  pub class_try_from-IsQuiet :
      ((t : String) → IsQuiet (H.class_from_str t)) → (v : Value) → IsQuiet (class_try_from H N v)
  unfolding class_try_from
  class_try_from-IsQuiet h (Value.string t span) = map_err-IsQuiet _ (H.class_from_str _) (h _)
  class_try_from-IsQuiet h _ = λ s p. cc

-- The name of a protocol, in capitals.
abbrev protocol_name : Protocol → Option String
protocol_name Protocol.udp = Option.some "UDP"
protocol_name Protocol.tcp = Option.some "TCP"
protocol_name Protocol.tls = Option.some "TLS"
protocol_name Protocol.https = Option.some "HTTPS"
protocol_name Protocol.quic = Option.some "QUIC"
protocol_name Protocol.other = Option.none

abbrev mode_name : DnssecMode → String
mode_name DnssecMode.none = "NONE"
mode_name DnssecMode.strict = "STRICT"
mode_name DnssecMode.opportunistic = "OPPORTUNISTIC"

protocol_of-protocol_name :
    (s : String) (p : Protocol) → protocol_of s ≡ Option.some p → protocol_name p ≡ Option.some s
unfolding protocol_of
protocol_of-protocol_name s p e =
    ground
      (arith, eq_iff s "UDP", eq_iff s "TCP", eq_iff s "TLS", eq_iff s "HTTPS", eq_iff s "QUIC")

protocol_of_name :
    (s : String) (p : Protocol) → protocol_name p ≡ Option.some s → protocol_of s ≡ Option.some p
unfolding protocol_of
protocol_of_name s Protocol.udp e = rw (← some-injective _ _ e)
protocol_of_name s Protocol.tcp e = rw (← some-injective _ _ e)
protocol_of_name s Protocol.tls e = rw (← some-injective _ _ e)
protocol_of_name s Protocol.https e = rw (← some-injective _ _ e)
protocol_of_name s Protocol.quic e = rw (← some-injective _ _ e)
protocol_of_name s Protocol.other e = cc

mode_of-mode_name : (s : String) (m : DnssecMode) → mode_of s ≡ Option.some m → mode_name m ≡ s
unfolding mode_of
mode_of-mode_name s m e =
    ground (arith, eq_iff s "NONE", eq_iff s "STRICT", eq_iff s "OPPORTUNISTIC")

mode_of_name : (s : String) (m : DnssecMode) → mode_name m ≡ s → mode_of s ≡ Option.some m
unfolding mode_of
mode_of_name s DnssecMode.none e = rw (← e)
mode_of_name s DnssecMode.strict e = rw (← e)
mode_of_name s DnssecMode.opportunistic e = rw (← e)

module _ (N : NuProtocol) (val : String) (span : Span) where
  -- A text is accepted as a protocol exactly if its upper case is the protocol's name; the five
  -- protocols with names are UDP, TCP, TLS, HTTPS and QUIC.
  protocol_try_from_iff :
      (p : Protocol)
      → (protocol_try_from N (Value.string val span) ≡ ok p)
        ↔ (protocol_name p ≡ Option.some (N.to_uppercase val))
  unfolding protocol_try_from
  protocol_try_from_iff p = (
    λ e. ground (arith, protocol_of-protocol_name (N.to_uppercase val) p),
    λ e. rw (protocol_of_name (N.to_uppercase val) p e, protocol_try_from),
  )

  -- A text is accepted as a DNSSEC mode exactly if its upper case is the mode's name.
  mode_try_from_iff :
      (m : DnssecMode)
      → (mode_try_from N (Value.string val span) ≡ ok m) ↔ (mode_name m ≡ N.to_uppercase val)
  unfolding mode_try_from
  mode_try_from_iff m = (
    λ e. ground (arith, mode_of-mode_name (N.to_uppercase val) m),
    λ e. rw (mode_of_name (N.to_uppercase val) m e, mode_try_from),
  )
