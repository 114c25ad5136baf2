-- ===== src/Plugin.antt =====
-- `Dns` of src/dns/mod.rs, the state that the plugin keeps between calls, and what
-- src/dns/commands/query.rs makes of it: `run` of the command, and a session of calls.
pub mod Served
pub mod OneClient
use nu_plugin_dns.Prelude.{String, List, [], ◌∷◌, Option, none, some, Bool, true, false}
use nu_plugin_dns.Prelude.{if◌then◌else◌, ℕ, ok, err, panic, ◌>>=◌}
use nu_plugin_dns.Prelude.Outcome.{Res}
use nu_plugin_dns.Nu.{Value, LabeledError}
use nu_plugin_dns.Nu.Protocol.{NuProtocol}
use nu_plugin_dns.Hickory.{Hickory}
use nu_plugin_dns.Config.{Config}
use nu_plugin_dns.Config.Settings.{System}
use nu_plugin_dns.Client.{Network, DnsClient}
use nu_plugin_dns.Client
use nu_plugin_dns.Command.Query.{Host}
use nu_plugin_dns.Command.Run.{PipelineData, Call, Output, Timing, run_impl}

-- What a call on a stream leaves to the runtime.
pub data Spawned : Type 0 where
  watch_sigterm coordinate_queries stream_requests : Spawned

-- tokio's `TaskTracker`, with `is_over` for what `wait` waits for.
pub record Tracker : Type 1 where
  pub Tasks : Type 0
  pub new : Tasks
  pub spawn : Spawned → Tasks → Tasks
  pub spawn_blocking : Spawned → Tasks → Tasks
  pub close : Tasks → Tasks
  pub is_over : Tasks → Bool

-- The plugin: the tasks, whether the cancellation token is spent, and the client that is kept.
pub record Dns (T : Tracker) (W : Network) : Type 0 where
  pub tasks : T.Tasks
  pub cancel : Bool
  pub client : Option (DnsClient W)

module _ {T : Tracker} {W : Network} where
  -- `Dns::new` and `Dns::default`
  unfoldable pub new : Dns T W
  new = record { tasks = T.new; cancel = false; client = none }

  unfoldable pub spawn : Spawned → Dns T W → Dns T W
  spawn future dns = record dns { tasks = T.spawn future dns.tasks }

  unfoldable pub spawn_blocking : Spawned → Dns T W → Dns T W
  spawn_blocking future dns = record dns { tasks = T.spawn_blocking future dns.tasks }

  -- `close`, which returns when all tasks are over: `none` while it waits.
  unfoldable pub close : Dns T W → Option (Dns T W)
  close dns =
      let tasks = T.close dns.tasks in
      if T.is_over tasks then some (record dns { tasks = tasks }) else none

  -- The end of `watch_sigterm`: the token is spent, for this call and all later ones.
  unfoldable pub cancel_all : Dns T W → Dns T W
  cancel_all dns = record dns { cancel = true }

  -- What the branch on a stream leaves to the runtime; the other branches nothing.
  unfoldable pub spawn_all : Res LabeledError Output → Dns T W → Dns T W
  unfolding spawn spawn_blocking
  spawn_all (ok (Output.streaming _)) dns =
      spawn_blocking Spawned.stream_requests
        (spawn Spawned.coordinate_queries (spawn Spawned.watch_sigterm dns))
  spawn_all _ dns = dns

-- What the engine passes for a call, and what times out during it.
pub record Request : Type 0 where
  pub plugin_config : Res LabeledError (Option Value)
  pub call : Call
  pub input : PipelineData
  pub late_connect : Bool
  pub late : ℕ → ℕ → Bool

abbrev pub timing_of : Request → Bool → Timing
timing_of r cancelled = record {
  late_connect = r.late_connect;
  late = r.late;
  cancelled = cancelled;
}

-- What happens to the plugin.
pub data Event : Type 0 where
  called : Request → Event
  interrupted : Event

module _ {T : Tracker} {H : Hickory} (N : NuProtocol) (host : Host H) (sys : System) where
  -- `PluginCommand::run`
  unfoldable pub run : Request → Dns T host.network → Res LabeledError Output × Dns T host.network
  unfolding spawn_all
  run r dns =
      let timing = timing_of r dns.cancel in
      let (output, client) = run_impl N host sys r.plugin_config r.call r.input timing dns.client in
      (output, spawn_all output (record dns { client = client }))

  -- A session: the outputs of the calls, and the plugin at the end.
  unfoldable pub session :
      List Event → Dns T host.network → List (Res LabeledError Output) × Dns T host.network
  unfolding run cancel_all
  session [] dns = ([], dns)
  session (interrupted ∷ events) dns = session events (cancel_all dns)
  session (called r ∷ events) dns =
      let (output, dns') = run r dns in
      let (outputs, last) = session events dns' in (output ∷ outputs, last)
