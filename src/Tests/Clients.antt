-- ===== src/Tests/Clients.antt =====
-- Clients of src/dns/client.rs and src/dns/mod.rs on a network where each client gives its own
-- answers.
use nu_plugin_dns.Prelude.{ℕ, zero, suc, [], ◌∷◌, String, List, true, false, none, some}
use nu_plugin_dns.Prelude.{ok, err, panic, ◌≡◌, ◌≢◌, refl, arith}
use nu_plugin_dns.Nu.{labeled, Span}
use nu_plugin_dns.Constants.{Protocol}
use nu_plugin_dns.Config.{Config, DnssecMode}
use nu_plugin_dns.Client.{
  ErrorKind, rrsigs_not_present, Item, response, failure, Network, DnsClient, new, make_clients,
  is_unsigned, first_signed, send,
}
use nu_plugin_dns.Client.Laws.{NeverPanics, IsFor, new-IsFor, new-from_values}
use nu_plugin_dns.Client.Sending.{both, send-new_strict, send-both_validated, send-both_unsigned}
use nu_plugin_dns.Cache.{Point, done, Event, read, lock, made, timeout, State, step, run, initial}
use nu_plugin_dns.Cache.Shared.{IsShared, initial-IsShared}
use nu_plugin_dns.Cache.Alone.{Finishes, run-dns_client}
use nu_plugin_dns.Cache.Steps.{run_shared, run-IsShared}
use nu_plugin_dns.Tests.Data.{hickory, nu, machine}
use nu_plugin_dns.Tests.Questions.{config}
use nu_plugin_dns.Tests.Settings.{flag, tls_config, tls_settings, machine-IsPlain}

-- A request 0 is about an unsigned name, any other about a signed one.
abbrev validated : ℕ → List (Item String)
validated zero =
    failure rrsigs_not_present ∷ failure (ErrorKind.message "no results to verify") ∷ []
validated (suc _) = failure rrsigs_not_present ∷ response "signed" ∷ []

abbrev pub net : Network
net = record {
  AsyncClient = String;
  AsyncDnssecClient = String;
  Background = String;
  Request = ℕ;
  Response = String;
  connect_async = λ e. ok ("plain", "plain task");
  connect_dnssec = λ e. ok ("validating", "validating task");
  send_async = λ c request. response "plain answer" ∷ [];
  send_dnssec = λ c request. validated request;
  show_protocol = λ p. "mDNS";
}

pub net-NeverPanics : NeverPanics net
net-NeverPanics = record {
  connect_async_ne = λ e m p. ground arith;
  connect_dnssec_ne = λ e m p. ground arith;
}

abbrev pub two_clients : DnsClient net
two_clients = record { async_client = some "plain"; dnssec_client = some "validating" }

abbrev pub tasks : List String
tasks = "plain task" ∷ "validating task" ∷ []

pub made_both : new net config ≡ ok (two_clients, tasks)
unfolding new make_clients
made_both = refl

new-IsFor_example :
    (Protocol.udp ≢ Protocol.other) × IsFor net DnssecMode.opportunistic two_clients tasks
new-IsFor_example = new-IsFor net config {c = two_clients} {bg = tasks} made_both

new-from_values_example : new net tls_config ≢ panic "no name"
new-from_values_example =
    new-from_values net nu machine (λ s name. (flag name, s)) tt {config = tls_config}
      net-NeverPanics machine-IsPlain tls_settings "no name"

abbrev strict_config : Config hickory
strict_config = record {
  protocol = config.protocol;
  server = config.server;
  qtypes = config.qtypes;
  class = config.class;
  code = config.code;
  dnssec_mode = record { item = DnssecMode.strict; span = Span.unknown };
  dns_name = none;
  tasks = config.tasks;
  timeout = config.timeout;
}

abbrev strict_client : DnsClient net
strict_client = record { async_client = none; dnssec_client = some "validating" }

made_strict : new net strict_config ≡ ok (strict_client, "validating task" ∷ [])
unfolding new make_clients
made_strict = refl

send-new_strict_example :
    (d : String) × ((request : ℕ) → send net strict_client request ≡ ok (net.send_dnssec d request))
send-new_strict_example =
    send-new_strict net strict_config {c = strict_client} {bg = "validating task" ∷ []} made_strict
      refl

rrsigs-is_unsigned : is_unsigned net (failure rrsigs_not_present) ≡ true
unfolding is_unsigned
rrsigs-is_unsigned = refl

no_results-is_unsigned : is_unsigned net (failure (ErrorKind.message "no results to verify")) ≡ true
unfolding is_unsigned
no_results-is_unsigned = refl

signed-is_unsigned : is_unsigned net (response "signed") ≡ false
unfolding is_unsigned
signed-is_unsigned = refl

send-both_validated_example :
    send net (both net "plain" "validating" 1) 1 ≡ ok (response "signed" ∷ [])
send-both_validated_example =
    send-both_validated net "plain" "validating" 1 (failure rrsigs_not_present ∷ [])
      (response "signed") [] refl (rrsigs-is_unsigned, tt) signed-is_unsigned

send-both_unsigned_example :
    send net (both net "plain" "validating" 0) 0
    ≡ ok (first_signed net (response "plain answer" ∷ []))
send-both_unsigned_example =
    send-both_unsigned net "plain" "validating" 0 (rrsigs-is_unsigned, (no_results-is_unsigned, tt))

-- Two calls find no client; the first to make one fails, so the second does.
abbrev events : List (Event ℕ)
events =
    read 0
    ∷ read 1
    ∷ read 2
    ∷ lock 0
    ∷ made 0 (err (labeled "connection error" "no route" Span.unknown))
    ∷ lock 1
    ∷ timeout 2
    ∷ made 1 (ok 53)
    ∷ read 3
    ∷ []

abbrev reached :
    (s : State ℕ) × (run events initial ≡ some s)
    × (s.calls 1 ≡ done (ok 53))
    × (s.calls 3 ≡ done (ok 53))
unfolding run step
reached = (_, refl, refl, refl)

run-IsShared_example : IsShared reached.0
run-IsShared_example = run-IsShared events initial reached.1 initial-IsShared

run_shared_example : ◌≡◌ {A = ℕ} 53 53 × (reached.0.count ≡ 1)
run_shared_example = run_shared events 1 3 53 53 reached.1 reached.2 reached.3

-- A fifth call after those.
abbrev four_calls :
    (s : State ℕ) × (run events initial ≡ some s) × (s.calls 4 ≡ Point.reading) × (s.writer ≡ none)
unfolding run step
four_calls = (_, refl, refl, refl)

run-dns_client_example : Finishes (ok 853) 4 four_calls.0
run-dns_client_example = run-dns_client (ok 853) 4 four_calls.0 four_calls.2 four_calls.3
