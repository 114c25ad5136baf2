-- ===== src/Command/Run.antt =====
-- `DnsQuery::run_impl` of src/dns/commands/query.rs, from the call to its output.
pub mod Laws
use nu_plugin_dns.Prelude.{
  ℕ, zero, suc, String, ◌<>◌, List, [], ◌∷◌, Option, Bool, if◌then◌else◌, ◌==◌,
}
use nu_plugin_dns.Prelude.{ok, err, panic, map_ok, collect_map, ◌>>=◌}
use nu_plugin_dns.Prelude.Outcome.{Res}
use nu_plugin_dns.Nu.{Value, Span, span_of, LabeledError, labeled, list_value}
use nu_plugin_dns.Nu.Protocol.{NuProtocol}
use nu_plugin_dns.Hickory.{Hickory}
use nu_plugin_dns.Config.{Config}
use nu_plugin_dns.Config.Settings.{System}
use nu_plugin_dns.Config.FromValues.{EvaluatedCall, from_nu}
use nu_plugin_dns.Client.{DnsClient, new}
use nu_plugin_dns.Cache.{dns_client}
use nu_plugin_dns.Command.Query.{Host, Reply, query}
use nu_plugin_dns.Command.Stream.{State, start}

-- nu_protocol's `PipelineData`; any other variant (a byte stream) by its span.
pub data PipelineData : Type 0 where
  empty : PipelineData
  value : Value → PipelineData
  list_stream : List Value → Span → PipelineData
  other : Option Span → PipelineData

-- `data.span().unwrap_or(Span::unknown())`
abbrev pub span_or_unknown : PipelineData → Span
span_or_unknown PipelineData.empty = Span.unknown
span_or_unknown (PipelineData.value v) = span_of v
span_or_unknown (PipelineData.list_stream _ span) = span
span_or_unknown (PipelineData.other (Option.some span)) = span
span_or_unknown (PipelineData.other Option.none) = Span.unknown

-- The call: its flags, its positional arguments, its head's span.
pub record Call : Type 0 where
  pub flags : EvaluatedCall
  pub positional : List Value
  pub head : Span

-- `call.nth(0).unwrap_or(Value::nothing(call.head))`
abbrev pub argument : List Value → Span → Value
argument [] head = Value.nothing head
argument (v ∷ _) head = v

-- An item of the input stream, with the questions of it that time out.
abbrev pub Timed : Type 0
Timed = Value × (ℕ → Bool)

-- The output: a value, or a stream that the threads fill from this state on.
pub data Output : Type 0 where
  values : Value → Output
  streaming : State Timed Reply → Output

-- What the output stream makes of a reply: `Value::error` of an error. No reply is a panic.
unfoldable pub show_reply : Reply → Value
show_reply (ok v) = v
show_reply (err e) = Value.error e Span.unknown
show_reply (panic m) = Value.nothing Span.unknown

abbrev pub lift : {A : Type 0} → Res ⊥ A → Res LabeledError A
lift (ok a) = ok a
lift (err e) = absurd e
lift (panic m) = panic m

module _ (N : NuProtocol) where
  ambiguous : PipelineData → LabeledError
  ambiguous val =
      labeled "ambiguous input" "Input should either be positional args or piped, but not both"
        (span_or_unknown val)

  -- The input: piped, or else the argument.
  unfoldable pub resolve_input : Value → PipelineData → Res LabeledError PipelineData
  unfolding ambiguous
  resolve_input arg PipelineData.empty = ok (PipelineData.value arg)
  resolve_input arg (PipelineData.value (Value.nothing _)) = ok (PipelineData.value arg)
  resolve_input arg val = if N.is_empty arg then ok val else err (ambiguous val)

-- What happens around a call: whether connecting or a question (of an item) times out, and whether
-- the plugin's cancellation token is spent.
pub record Timing : Type 0 where
  pub late_connect : Bool
  pub late : ℕ → ℕ → Bool
  pub cancelled : Bool

-- The items of a stream, numbered on.
abbrev pub timed : (ℕ → ℕ → Bool) → ℕ → List Value → List Timed
timed late i [] = []
timed late i (v ∷ vs) = (v, late i) ∷ timed late (suc i) vs

module _ {H : Hickory} (N : NuProtocol) (host : Host H) where
  -- What a spawned query gives.
  unfoldable pub answer_item : Config H → DnsClient host.network → Timed → Res ⊥ (List Reply)
  answer_item config client (v, late) = query N host config v client late

  -- The branches on the input. Both channels of a stream have `--tasks` places.
  unfoldable pub serve :
      Config H → DnsClient host.network → Timing → PipelineData → Res LabeledError Output
  serve config client timing (PipelineData.value val) = do
    replies ← lift (query N host config val client (timing.late 0))
    vals ← collect_map (λ r. r) replies
    ok (Output.values (list_value vals))
  serve config client timing (PipelineData.list_stream vals span) = do
    requests ← lift (host.mpsc_channel config.tasks.item)
    responses ← lift (host.mpsc_channel config.tasks.item)
    let reserved = host.with_capacity config.tasks.item
    ok (Output.streaming (start reserved timing.cancelled (timed timing.late 0 vals)))
  serve config client timing data_ =
      err (labeled "invalid input" "Only values can be passed as input" (span_or_unknown data_))

  pub connect_timed_out : Config H → LabeledError
  connect_timed_out config =
      labeled "timed out" ("connecting to " <> host.show_addr config.server.item <> " timed out")
        config.server.span

  -- `Dns::make_dns_client`, without its log line.
  abbrev pub make_dns_client :
      Config H → Res LabeledError (DnsClient host.network × List host.network.Background)
  make_dns_client config = new host.network config

  -- `plugin.dns_client(&config)` within the timeout: the client, and what the plugin keeps.
  unfoldable pub connect :
      Config H
      → Option (DnsClient host.network)
      → Bool
      → Res LabeledError (DnsClient host.network) × Option (DnsClient host.network)
  unfolding connect_timed_out
  connect config cached late =
      if late
      then (err (connect_timed_out config), cached)
      else dns_client (map_ok (λ made. made.0) (make_dns_client config)) cached

  -- What was settled before the client is needed: the configuration and the input.
  unfoldable pub prepare :
      System
      → Res LabeledError (Option Value)
      → Call
      → PipelineData
      → Res LabeledError (Config H × PipelineData)
  prepare sys plugin_config call input = do
    plugin_config ← plugin_config
    config ← from_nu H N sys plugin_config call.flags
    let arg_inputs = argument call.positional call.head
    input ← resolve_input N arg_inputs input
    ok (config, input)

  unfoldable pub run_prepared :
      Option (DnsClient host.network)
      → Timing
      → Res LabeledError (Config H × PipelineData)
      → Res LabeledError Output × Option (DnsClient host.network)
  run_prepared cached timing (ok (config, input)) =
      let (client, kept) = connect config cached timing.late_connect in
      (client >>= λ c. serve config c timing input, kept)
  run_prepared cached timing (err e) = (err e, cached)
  run_prepared cached timing (panic m) = (panic m, cached)

  -- `run_impl`, with the client that the plugin keeps before and after.
  unfoldable pub run_impl :
      System
      → Res LabeledError (Option Value)
      → Call
      → PipelineData
      → Timing
      → Option (DnsClient host.network)
      → Res LabeledError Output × Option (DnsClient host.network)
  unfolding run_prepared
  run_impl sys plugin_config call input timing cached =
      run_prepared cached timing (prepare sys plugin_config call input)
