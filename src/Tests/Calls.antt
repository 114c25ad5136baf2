-- ===== src/Tests/Calls.antt =====
-- Whole calls of the command of src/dns/commands/query.rs.

use nu_plugin_dns.Prelude.{ℕ, pos, String, List, [], ◌∷◌, Option, none, some, false, All}
use nu_plugin_dns.Prelude.{inr, arith, ok, ◌≡◌, refl}
use nu_plugin_dns.Nu.{Value, Span, to_columns, spanned, string_value, int_value}
use nu_plugin_dns.Nu.Protocol.{get}
use nu_plugin_dns.Std.Utf8.{from_utf8, encode}
use nu_plugin_dns.Constants.{Protocol}
use nu_plugin_dns.Config.{Config, DnssecMode}
use nu_plugin_dns.Client.{DnsClient, new, make_clients}
use nu_plugin_dns.Command.Query.{Reply}
use nu_plugin_dns.Command.Query.Laws.Total.{WasMade}
use nu_plugin_dns.Command.Run.{
  run_prepared, PipelineData, Call, Timing, Timed, timed, Output, resolve_input, prepare, connect,
  run_impl, serve,
}
use nu_plugin_dns.Config.Settings.{
  needs_dns_name, protocol_setting, dns_name_setting, server_setting, check_dns_name, types_setting,
  class_setting, code_setting, dnssec_setting, tasks_setting, timeout_setting,
}
use nu_plugin_dns.Config.FromValues.{from_values, from_nu, nu_value}
use nu_plugin_dns.Cache.{dns_client}
use nu_plugin_dns.Constants.{default_port}
use nu_plugin_dns.Serde.Parse.{protocol_try_from}
use nu_plugin_dns.Command.Run.Laws.{run_impl-rest}
use nu_plugin_dns.Command.Run.Laws.Delivery.{Steps, Delivers, run_impl-Delivers}
use nu_plugin_dns.Command.Run.Laws.Redirect.{redirect, run_impl-redirect}
use nu_plugin_dns.Command.Stream.{State, Sender, Step, Run, start}
use nu_plugin_dns.Tests.Data.{parsers-HasQuietParsers, at_home, hickory, nu, machine}
use nu_plugin_dns.Tests.Clients.{net, two_clients}
use nu_plugin_dns.Tests.Command.{host, host-IsLawful, can_be_shown, in_time}
use nu_plugin_dns.Command.Signature.{Flag, signature}
use nu_plugin_dns.Command.Signature.Laws.{settings-signature}
use nu_plugin_dns.Config.Laws.Server.{settings}

-- Two values are piped, with two tasks; and with no task.
abbrev call_with : List (String × Value) → List Value → Call
call_with flags args = record {
  flags = record {
    has_flag = λ name. inr false;
    get_flag_value = λ name. get name (to_columns flags);
  };
  positional = args;
  head = Span.unknown;
}

abbrev names : List Value
names = string_value "example.com" ∷ string_value "example.net" ∷ []

abbrev pub piped : PipelineData
piped = PipelineData.list_stream names Span.unknown

abbrev pub timing : Timing
timing = record { late_connect = false; late = λ i j. false; cancelled = false }

abbrev config_with : ℕ → Config hickory
config_with n = record {
  protocol = spanned Protocol.udp Span.unknown;
  server = spanned at_home Span.unknown;
  qtypes = spanned (spanned 28 Span.unknown ∷ spanned 1 Span.unknown ∷ []) Span.unknown;
  class = spanned 1 Span.unknown;
  code = spanned false Span.unknown;
  dnssec_mode = spanned DnssecMode.opportunistic Span.unknown;
  dns_name = none;
  tasks = spanned n Span.unknown;
  timeout = spanned 5000000000 Span.unknown;
}

abbrev pub tasks_flag : ℕ → Call
tasks_flag n = call_with (("tasks", int_value (pos n)) ∷ []) []

prepared :
    (n : ℕ) → prepare nu host machine (ok none) (tasks_flag n) piped ≡ ok (config_with n, piped)
unfolding prepare resolve_input from_nu from_values nu_value needs_dns_name protocol_setting
    dns_name_setting server_setting check_dns_name types_setting class_setting code_setting
    dnssec_setting tasks_setting timeout_setting
prepared n = refl

connected : (n : ℕ) → (connect nu host (config_with n) none false).0 ≡ ok two_clients
unfolding connect dns_client new make_clients
connected n = refl

abbrev started : State Timed Reply
started = start (ok tt) false (timed timing.late 0 names)

streamed :
    (run_impl nu host machine (ok none) (tasks_flag 2) piped timing none).0
    ≡ ok (Output.streaming started)
unfolding run_impl run_prepared prepare resolve_input from_nu from_values nu_value needs_dns_name
    protocol_setting dns_name_setting server_setting check_dns_name types_setting class_setting
    code_setting dnssec_setting tasks_setting timeout_setting connect dns_client new make_clients
    serve
streamed = refl

-- The sender has taken the first name.
abbrev one_step : State Timed Reply
one_step = record started {
  source = timed timing.late 1 (string_value "example.net" ∷ []);
  sender = Sender.sending (string_value "example.com", in_time);
}

stepped : Steps nu host machine "closed" (λ m. m) (config_with 2) two_clients started 1 one_step
unfolding start
stepped = Run.then Run.here (
    Step.take _ (string_value "example.com", in_time) ((string_value "example.net", in_time) ∷ [])
      refl refl refl)

none_kept : (c : DnsClient net) → none ≡ some c → WasMade nu host (config_with 2) c
none_kept c e = cc

run_impl-Delivers_example :
    Delivers nu host machine "closed" (λ m. m) (config_with 2) two_clients timing names one_step
unfolding start
run_impl-Delivers_example =
    run_impl-Delivers nu host machine "closed" (λ m. m) host-IsLawful parsers-HasQuietParsers
      (ok none) (tasks_flag 2) piped timing none (config_with 2) names Span.unknown two_clients
      started (omega arith) (can_be_shown (config_with 2)) none_kept (prepared 2) (connected 2)
      streamed stepped refl refl

-- Two names as arguments: the second is ignored.
run_impl-rest_example :
    run_impl nu host machine (ok none) (call_with [] names) PipelineData.empty timing none
    ≡ run_impl nu host machine
        (ok none)
        (call_with [] (string_value "example.com" ∷ []))
        PipelineData.empty
        timing
        none
run_impl-rest_example =
    run_impl-rest nu host machine (ok none) (call_with [] names) (string_value "example.com")
      (string_value "example.net" ∷ []) PipelineData.empty timing none refl

-- A later call names another server and TCP.
abbrev pub other_server : Call
other_server =
    call_with (("server", string_value "9.9.9.9") ∷ ("protocol", string_value "tcp") ∷ [])
      (string_value "example.com" ∷ [])

prepared_value :
    prepare nu host machine
      (ok none)
      (call_with [] (string_value "example.com" ∷ []))
      PipelineData.empty
    ≡ ok (config_with 8, PipelineData.value (string_value "example.com"))
unfolding prepare resolve_input from_nu from_values nu_value needs_dns_name protocol_setting
    dns_name_setting server_setting check_dns_name types_setting class_setting code_setting
    dnssec_setting tasks_setting timeout_setting
prepared_value = refl

abbrev other_config : Config hickory
other_config =
    redirect (spanned Protocol.tcp Span.unknown)
      (spanned (record { ip = "9.9.9.9"; port = 53 }) Span.unknown) none
      (spanned DnssecMode.opportunistic Span.unknown) (config_with 8)

prepared_other :
    prepare nu host machine (ok none) other_server PipelineData.empty
    ≡ ok (other_config, PipelineData.value (string_value "example.com"))
unfolding prepare resolve_input from_nu from_values nu_value needs_dns_name protocol_setting
    dns_name_setting server_setting check_dns_name types_setting class_setting code_setting
    dnssec_setting tasks_setting timeout_setting protocol_try_from from_utf8 encode default_port
prepared_other = refl

never_late : (i : ℕ) → timing.late 0 i ≡ false
never_late i = refl

run_impl-redirect_example :
    run_impl nu host machine (ok none) other_server PipelineData.empty timing (some two_clients)
    ≡ run_impl nu host machine
        (ok none)
        (call_with [] (string_value "example.com" ∷ []))
        PipelineData.empty
        timing
        (some two_clients)
run_impl-redirect_example =
    run_impl-redirect (spanned Protocol.tcp Span.unknown)
      (spanned (record { ip = "9.9.9.9"; port = 53 }) Span.unknown) none
      (spanned DnssecMode.opportunistic Span.unknown) nu host machine (ok none) (ok none)
      (call_with [] (string_value "example.com" ∷ [])) other_server PipelineData.empty
      PipelineData.empty timing two_clients (config_with 8) (string_value "example.com")
      prepared_value prepared_other refl never_late

-- A configuration file with a column that is no flag.
abbrev stray : String → Option Value
stray name =
    get name (to_columns (("tasks", int_value (pos 2)) ∷ ("retries", int_value (pos 3)) ∷ []))

abbrev declared : String → Option Value
declared name = get name (to_columns (("tasks", int_value (pos 2)) ∷ []))

agree : All (λ (d : Flag). stray d.name ≡ declared d.name) signature.named
unfolding signature
agree = (refl, (refl, (refl, (refl, (refl, (refl, (refl, (refl, (refl, tt)))))))))

settings-signature_example :
    settings hickory nu machine stray ≡ settings hickory nu machine declared
settings-signature_example = settings-signature hickory nu machine stray declared agree
