-- ===== src/Tests/Sessions.antt =====
-- Sessions of the plugin of src/dns/mod.rs: calls one after the other.
use nu_plugin_dns.Prelude.{ℕ, List, [], ◌∷◌, Option, none, some, true, false}
use nu_plugin_dns.Prelude.{String, ◌↔◌, ok, panic, ◌≡◌, ◌⊎◌, IsQuiet}
use nu_plugin_dns.Nu.{Value, LabeledError}
use nu_plugin_dns.Config.{Config}
use nu_plugin_dns.Client.{DnsClient}
use nu_plugin_dns.Command.Run.{PipelineData, prepare, run_impl}
use nu_plugin_dns.Config.Settings.{}
use nu_plugin_dns.Command.Run.Laws.Calm.{IsCalm, IsUnfitCall, run_impl-panic}
use nu_plugin_dns.Command.Query.Laws.Total.{WasMade}
use nu_plugin_dns.Plugin.{Tracker, Spawned, Request, Event, called, interrupted}
use nu_plugin_dns.Plugin
use nu_plugin_dns.Plugin.OneClient.{MakesNone, MakesOne, session-new}
use nu_plugin_dns.Tests.Data.{
  parsers-HasQuietParsers, settings-HasQuietSettings, hickory, nu, machine,
}
use nu_plugin_dns.Tests.Settings.{machine-IsPlain}
use nu_plugin_dns.Tests.Clients.{net, net-NeverPanics}
use nu_plugin_dns.Tests.Command.{host, host-IsLawful, can_be_shown}
use nu_plugin_dns.Tests.Calls.{tasks_flag, piped, timing, other_server}

calm : IsCalm nu host machine
calm = record {
  lawful = host-IsLawful;
  parsers = parsers-HasQuietParsers;
  settings = settings-HasQuietSettings;
  connects = net-NeverPanics;
  plain = machine-IsPlain;
  shown = can_be_shown;
}

engine_ok : IsQuiet {E = LabeledError} {A = Option Value} (ok none)
engine_ok s p = cc

kept_none : (config : Config hickory) (c : DnsClient net) → none ≡ some c → WasMade nu host config c
kept_none config c e = cc

run_impl-panic_example :
    ((m : String) × ((run_impl nu host machine (ok none) (tasks_flag 0) piped timing none).0
        ≡ panic m))
    ↔ IsUnfitCall nu host machine
        (ok none)
        (tasks_flag 0)
        piped
        timing
        none
        (prepare nu host machine (ok none) (tasks_flag 0) piped)
run_impl-panic_example =
    run_impl-panic nu host machine (ok none) (tasks_flag 0) piped timing none calm engine_ok
      kept_none

-- Spawned tasks that are over at once.
abbrev tracker : Tracker
tracker = record {
  Tasks = List Spawned;
  new = [];
  spawn = λ future tasks. future ∷ tasks;
  spawn_blocking = λ future tasks. future ∷ tasks;
  close = λ tasks. tasks;
  is_over = λ tasks. true;
}

abbrev request : ℕ → Request
request n = record {
  plugin_config = ok none;
  call = tasks_flag n;
  input = piped;
  late_connect = false;
  late = λ i j. false;
}

-- A call that connects too late, a call on a stream, an interrupt and another call.
abbrev events : List Event
events =
    called (record (request 2) { late_connect = true })
    ∷ called (request 2)
    ∷ interrupted
    ∷ called (record (request 2) { call = other_server; input = PipelineData.empty })
    ∷ []

session-new_example :
    MakesNone {T = tracker} nu host machine events Plugin.new
    ⊎ MakesOne {T = tracker} nu host machine events Plugin.new
session-new_example = session-new tracker nu host machine events
