-- ===== src/Tests/Settings.antt =====
-- Configurations of src/dns/config.rs from concrete flags.
use nu_plugin_dns.Prelude.{
  pos, [], ◌∷◌, String, true, false, Option, none, some, ok, ◌≡◌, refl, Bool-cases, inl, inr,
  str_eq, arith,
}
use nu_plugin_dns.Nu.{Value, Span, Columns, Spanned, to_columns, spanned, string_value, int_value}
use nu_plugin_dns.Nu.Protocol.{get}
use nu_plugin_dns.Std.Utf8.{from_utf8, encode}
use nu_plugin_dns.Constants.{Protocol, default_port}
use nu_plugin_dns.Constants.Flags
use nu_plugin_dns.Config.{Config, DnssecMode}
use nu_plugin_dns.Config.Settings.{
  needs_tls, needs_dns_name, protocol_setting, dns_name_setting, server_setting, check_dns_name,
  types_setting, class_setting, code_setting, dnssec_setting, tasks_setting, timeout_setting,
}
use nu_plugin_dns.Config.FromValues.{
  EvaluatedCall, call_value, from_values, try_from_value, from_nu,
}
use nu_plugin_dns.Serde.Parse.{protocol_try_from, mode_try_from}
use nu_plugin_dns.Config.Laws.{IsPlain, from_values-dns_name}
use nu_plugin_dns.Config.Laws.Sources.{config_column, from_nu-agree, try_from_value-get}
use nu_plugin_dns.Config.Laws.Server.{
  IsAddressOf, IsProtocolOf, with_flag, settings, from_values-protocol_ignored,
  from_values-given_server,
}
use nu_plugin_dns.Config.Laws.Tasks.{AreTasks, from_values-tasks}
use nu_plugin_dns.Config.Laws.Names.{is_given, from_values-is_given}
use nu_plugin_dns.Tests.Data.{hickory, nu, nu-IsLawful, machine, home_server}

-- A server reached over TLS.
abbrev tls_flags : Columns
tls_flags = to_columns (
    ("protocol", string_value "tls")
    ∷ ("dns-name", string_value "dns.google")
    ∷ ("server", string_value "8.8.8.8")
    ∷ ("dnssec", string_value "none")
    ∷ ("tasks", int_value (pos 4))
    ∷ [])

abbrev pub flag : String → Option Value
flag name = get name tls_flags

abbrev pub tls_config : Config hickory
tls_config = record {
  protocol = spanned Protocol.tls Span.unknown;
  server = spanned (record { ip = "8.8.8.8"; port = 853 }) Span.unknown;
  qtypes = spanned (spanned 28 Span.unknown ∷ spanned 1 Span.unknown ∷ []) Span.unknown;
  class = spanned 1 Span.unknown;
  code = spanned false Span.unknown;
  dnssec_mode = spanned DnssecMode.none Span.unknown;
  dns_name = some (spanned "dns.google" Span.unknown);
  tasks = spanned 4 Span.unknown;
  timeout = spanned 5000000000 Span.unknown;
}

pub tls_settings : settings hickory nu machine flag ≡ ok tls_config
unfolding from_values needs_tls needs_dns_name protocol_setting dns_name_setting server_setting
    check_dns_name types_setting class_setting code_setting dnssec_setting tasks_setting
    timeout_setting protocol_try_from mode_try_from from_utf8 encode default_port
tls_settings = refl

pub machine-IsPlain : IsPlain machine
unfolding needs_tls
machine-IsPlain = ((refl, tt), refl)

tls-needs_tls : needs_tls Protocol.tls ≡ true
unfolding needs_tls
tls-needs_tls = refl

from_values-dns_name_example : (name : Spanned String) × (tls_config.dns_name ≡ some name)
from_values-dns_name_example =
    from_values-dns_name hickory nu machine (λ s name. (flag name, s)) tt {cfg = tls_config}
      machine-IsPlain tls_settings tls-needs_tls

from_values-is_given_example :
    (asked : Option (Spanned Protocol)) × (protocol_setting hickory nu (flag Flags.protocol)
      ≡ ok asked)
    × (is_given tls_config.dns_name ≡ needs_dns_name asked)
    × (is_given (flag Flags.dns_name) ≡ needs_dns_name asked)
from_values-is_given_example =
    from_values-is_given hickory nu machine flag {cfg = tls_config} tls_settings

-- The protocol is given, and no server.
abbrev tcp_flags : String → Option Value
tcp_flags name = get name (to_columns (("protocol", string_value "tcp") ∷ []))

abbrev udp_config : Config hickory
udp_config = record {
  protocol = spanned Protocol.udp Span.unknown;
  server = spanned home_server.socket_addr Span.unknown;
  qtypes = spanned (spanned 28 Span.unknown ∷ spanned 1 Span.unknown ∷ []) Span.unknown;
  class = spanned 1 Span.unknown;
  code = spanned false Span.unknown;
  dnssec_mode = spanned DnssecMode.opportunistic Span.unknown;
  dns_name = none;
  tasks = spanned 8 Span.unknown;
  timeout = spanned 5000000000 Span.unknown;
}

tcp_settings : settings hickory nu machine tcp_flags ≡ ok udp_config
unfolding from_values needs_tls needs_dns_name protocol_setting dns_name_setting server_setting
    check_dns_name types_setting class_setting code_setting dnssec_setting tasks_setting
    timeout_setting protocol_try_from mode_try_from from_utf8 encode default_port
tcp_settings = refl

udp_settings :
    settings hickory nu machine (with_flag Flags.protocol (some (string_value "udp")) tcp_flags)
    ≡ ok udp_config
unfolding from_values needs_tls needs_dns_name protocol_setting dns_name_setting server_setting
    check_dns_name types_setting class_setting code_setting dnssec_setting tasks_setting
    timeout_setting protocol_try_from mode_try_from from_utf8 encode default_port
udp_settings = refl

-- With UDP asked for instead the settings are the same.
from_values-protocol_ignored_example :
    (udp_config ≡ udp_config)
    × (udp_config.server.item ≡ home_server.socket_addr)
    × (udp_config.protocol.item ≡ home_server.protocol)
from_values-protocol_ignored_example =
    from_values-protocol_ignored hickory nu machine tcp_flags (some (string_value "udp"))
      {cfg = udp_config} {cfg' = udp_config} home_server [] refl refl tcp_settings udp_settings

from_values-given_server_example :
    (text : String) × (span : Span) × (string_value "8.8.8.8" ≡ Value.string text span)
    × (tls_config.server.span ≡ span)
    × IsAddressOf hickory nu machine text tls_config.server.item tls_config.protocol.item
    × IsProtocolOf hickory nu machine (flag Flags.protocol) tls_config.protocol.item
from_values-given_server_example =
    from_values-given_server hickory nu machine flag {cfg = tls_config} (string_value "8.8.8.8")
      refl tls_settings

-- No task at all is accepted too.
from_values-tasks_example :
    AreTasks (flag Flags.tasks) 4
    × (settings hickory nu machine
          (with_flag Flags.tasks (some (Value.int (pos 0) Span.unknown)) flag)
        ≡ ok (record tls_config { tasks = spanned 0 Span.unknown }))
from_values-tasks_example =
    from_values-tasks hickory nu machine flag {cfg = tls_config} 0 Span.unknown tls_settings

-- A record as the configuration, its columns taken out one by one.
tls_record : try_from_value hickory nu machine (Value.rec tls_flags Span.unknown) ≡ ok tls_config
unfolding try_from_value from_values needs_tls needs_dns_name protocol_setting dns_name_setting
    server_setting check_dns_name types_setting class_setting code_setting dnssec_setting
    tasks_setting timeout_setting protocol_try_from mode_try_from from_utf8 encode default_port
tls_record = refl

try_from_value-get_example :
    try_from_value hickory nu machine (Value.rec tls_flags Span.unknown)
    ≡ settings hickory nu machine flag
try_from_value-get_example =
    try_from_value-get hickory nu machine nu-IsLawful tls_flags Span.unknown

-- The command line gives the protocol; the two plugin configurations differ in it only.
abbrev call : EvaluatedCall
call = record {
  has_flag = λ name. inr false;
  get_flag_value = λ name. get name (to_columns (("protocol", string_value "tcp") ∷ []));
}

abbrev stored : String → Option Value
stored protocol = some (
    Value.rec (to_columns (("protocol", string_value protocol) ∷ ("tasks", int_value (pos 2)) ∷ []))
      Span.unknown)

stored-agree :
    (name : String)
    → call_value hickory nu machine call name ≡ none
    → config_column nu (stored "tls") name ≡ config_column nu (stored "quic") name
unfolding call_value
stored-agree name h = elim (Bool-cases (str_eq "protocol" name)) [
  | inl given ↦ absurd (ground arith)
  | inr other ↦ rw other
]

from_nu-agree_example :
    from_nu hickory nu machine (stored "tls") call ≡ from_nu hickory nu machine (stored "quic") call
from_nu-agree_example =
    from_nu-agree hickory nu machine (stored "tls") (stored "quic") call stored-agree
