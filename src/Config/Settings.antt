-- ===== src/Config/Settings.antt =====
-- The stages of `Config::from_values` in src/dns/config.rs: each turns the value of one flag, or its
-- absence, into a setting.
use nu_plugin_dns.Prelude.{ℕ, pos, negsuc, String, ◌<>◌, List, [], ◌∷◌}
use nu_plugin_dns.Prelude.{Option, none, some, Bool, true, false}
use nu_plugin_dns.Prelude.{ok, err, map_err, map_ok, collect_map}
use nu_plugin_dns.Prelude.Outcome.{Res}
use nu_plugin_dns.Nu.{Value, of_items, Span, span_of, LabeledError, labeled, Spanned, spanned}
use nu_plugin_dns.Nu.Protocol.{NuProtocol}
use nu_plugin_dns.Constants.{Protocol, default_port, default_tasks, default_timeout}
use nu_plugin_dns.Hickory.{Hickory}
use nu_plugin_dns.Config.{DnssecMode, SocketAddr}
use nu_plugin_dns.Serde.Parse.{rtype_try_from, class_try_from, protocol_try_from, mode_try_from}

-- A name server of hickory_resolver's configuration.
pub record NameServer : Type 0 where
  pub socket_addr : SocketAddr
  pub protocol : Protocol

-- What the code asks of the machine: `SocketAddr::from_str`, `IpAddr::from_str` with its error as
-- printed, the name servers of `read_system_conf().unwrap_or_default()`, the first name server of
-- `ResolverConfig::default()`, which has one, and the text of a failed integer conversion.
pub record System : Type 0 where
  pub parse_addr : String → Option SocketAddr
  pub parse_ip : String → Res String String
  pub name_servers : List NameServer
  pub default_server : NameServer
  pub try_from_int_error : String

unfoldable pub needs_tls : Protocol → Bool
needs_tls Protocol.tls = true
needs_tls Protocol.https = true
needs_tls Protocol.quic = true
needs_tls _ = false

-- The `matches!` on the protocol that was asked for.
unfoldable pub needs_dns_name : Option (Spanned Protocol) → Bool
unfolding needs_tls
needs_dns_name none = false
needs_dns_name (some p) = needs_tls p.item

-- `protocol.unwrap_or(d)`
abbrev pub or_default : Option (Spanned Protocol) → Spanned Protocol → Spanned Protocol
or_default (some p) d = p
or_default none d = d

-- No server is given: the first of the system's, or of hickory's default configuration.
unfoldable pub system_server :
    System → List NameServer → Option (Spanned Protocol) → Spanned SocketAddr × Spanned Protocol
system_server sys (ns ∷ _) protocol =
    (spanned ns.socket_addr Span.unknown, spanned ns.protocol Span.unknown)
system_server sys [] protocol =
    let ns = sys.default_server in
    (spanned ns.socket_addr Span.unknown, or_default protocol (spanned ns.protocol Span.unknown))

module _ (H : Hickory) (N : NuProtocol) where
  unfoldable pub protocol_setting : Option Value → Res LabeledError (Option (Spanned Protocol))
  protocol_setting none = ok none
  protocol_setting (some val) =
      map_ok (λ proto. some (spanned proto (span_of val))) (protocol_try_from N val)

  unfoldable pub dns_name_setting : Bool → Option Value → Res LabeledError (Option (Spanned String))
  dns_name_setting needed none = ok none
  dns_name_setting false (some val) = err (
      labeled "invalid config combination" "DNS name only makes sense for TLS, HTTPS, or QUIC"
        (span_of val))
  dns_name_setting true (some val) =
      map_ok (λ name. some (spanned name (span_of val))) (N.into_string val)

  -- `SocketAddr::from_str(s).or_else(|_| IpAddr::from_str(s).map(..)).map_err(..)`
  unfoldable pub server_addr : System → Protocol → String → Span → Res LabeledError SocketAddr
  server_addr sys proto text span = elim (sys.parse_addr text) [
    | some addr ↦ ok addr
    | none ↦
        map_err (λ e. labeled "invalid server" e span)
          (map_ok (λ ip. record { ip = ip; port = default_port proto }) (sys.parse_ip text))
  ]

  unfoldable pub server_setting :
      System
      → Option (Spanned Protocol)
      → Option Value
      → Res LabeledError (Spanned SocketAddr × Spanned Protocol)
  unfolding server_addr system_server
  server_setting sys protocol none = ok (system_server sys sys.name_servers protocol)
  server_setting sys protocol (some (Value.string text span)) =
      let proto = or_default protocol (spanned Protocol.udp Span.unknown) in
      map_ok (λ addr. (spanned addr span, proto)) (server_addr sys proto.item text span)
  server_setting sys protocol (some val) =
      err (labeled "invalid server address" "server address should be a string" (span_of val))

  -- `needs_dns_name && dns_name.is_none()`
  unfoldable pub check_dns_name :
      Bool → Option (Spanned String) → Span → Res LabeledError (Unit {0})
  check_dns_name true none span =
      err (labeled "need DNS name" "protocol needs to be accompanied by --dns-name" span)
  check_dns_name true (some _) span = ok tt
  check_dns_name false _ span = ok tt

  unfoldable pub spanned_type : Value → Res LabeledError (Spanned H.RecordType)
  spanned_type val = map_ok (λ t. spanned t (span_of val)) (rtype_try_from H N val)

  unfoldable pub types_setting :
      Option Value → Res LabeledError (Spanned (List (Spanned H.RecordType)))
  unfolding spanned_type
  types_setting (some (Value.list vals span)) =
      map_ok (λ ts. spanned ts span) (collect_map spanned_type (of_items vals))
  types_setting (some val) = map_ok (λ t. spanned (t ∷ []) (span_of val)) (spanned_type val)
  types_setting none =
      ok (spanned (spanned H.aaaa Span.unknown ∷ spanned H.a Span.unknown ∷ []) Span.unknown)

  unfoldable pub class_setting : Option Value → Res LabeledError (Spanned H.DnsClass)
  class_setting (some val) = map_ok (λ c. spanned c (span_of val)) (class_try_from H N val)
  class_setting none = ok (spanned H.class_in Span.unknown)

  -- Anything but a Boolean counts as false.
  unfoldable pub code_setting : Option Value → Spanned Bool
  code_setting (some (Value.bool b span)) = spanned b span
  code_setting _ = spanned false Span.unknown

  unfoldable pub dnssec_setting : Option Value → Res LabeledError (Spanned DnssecMode)
  dnssec_setting (some val) = map_ok (λ m. spanned m (span_of val)) (mode_try_from N val)
  dnssec_setting none = ok (spanned DnssecMode.opportunistic Span.unknown)

  -- `i64` to `usize`, on a 64-bit machine
  unfoldable pub tasks_setting : System → Option Value → Res LabeledError (Spanned ℕ)
  tasks_setting sys (some (Value.int (pos n) span)) = ok (spanned n span)
  tasks_setting sys (some (Value.int (negsuc n) span)) =
      err (labeled "invalid input" ("should be positive int: " <> sys.try_from_int_error) span)
  tasks_setting sys none = ok (spanned default_tasks Span.unknown)
  tasks_setting sys (some val) =
      err (labeled "should be int" "number of tasks should be an int" (span_of val))

  -- `i64` to `u64`
  unfoldable pub timeout_setting : System → Option Value → Res LabeledError (Spanned ℕ)
  timeout_setting sys (some (Value.duration (pos n) span)) = ok (spanned n span)
  timeout_setting sys (some (Value.duration (negsuc n) span)) =
      err (
        labeled "invalid duration" ("should be positive duration: " <> sys.try_from_int_error) span)
  timeout_setting sys none = ok (spanned default_timeout Span.unknown)
  timeout_setting sys (some val) =
      err (labeled "should be duration" "timeout should be a positive duration" (span_of val))
