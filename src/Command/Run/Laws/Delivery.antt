-- ===== src/Command/Run/Laws/Delivery.antt =====
-- A call of `dns query` on a stream, from `run_impl` of src/dns/commands/query.rs to the last value
-- of its output.
use mathlib.Core.Path.{subst}
use nu_plugin_dns.Prelude.{ℕ, ◌*◌, ◌^◌, ◌<◌, String, List, [], Option, some, true, false, map}
use nu_plugin_dns.Prelude.{ok, err, ◌≡◌, ap, sym, ◌∙◌, inl, inr}
use nu_plugin_dns.Prelude.Outcome.{Res}
use nu_plugin_dns.Nu.{Value, Span, LabeledError}
use nu_plugin_dns.Nu.Protocol.{NuProtocol}
use nu_plugin_dns.Hickory.{Hickory}
use nu_plugin_dns.Config.{Config}
use nu_plugin_dns.Config.Settings.{System}
use nu_plugin_dns.Client.{DnsClient}
use nu_plugin_dns.Command.Query.{Host, Reply, IsLawful}
use nu_plugin_dns.Command.Query.Laws.Total.{WasMade, CanBeShown, query-Succeeds, Succeeds-IsQuiet}
use nu_plugin_dns.Serde.Query.Laws.Quiet.{HasQuietParsers}
use nu_plugin_dns.Command.Stream.{State, Run, start, IsStopped, canceled}
use nu_plugin_dns.Command.Stream.Conserved.{all_replies, Panics}
use nu_plugin_dns.Command.Stream.Ends.Progress.{Run-Completes, Completes}
use nu_plugin_dns.Command.Run.{
  PipelineData, Call, Timed, Timing, timed, Output, answer_item, serve, connect, prepare,
  run_prepared, run_impl, show_reply,
}
use nu_plugin_dns.Command.Run.Laws.{connect-WasMade, serve-Started}

module _ {H : Hickory} (N : NuProtocol) (host : Host H) (sys : System) (send_error : String)
    (join_error : String → String) where
  -- Steps of the threads of a call.
  abbrev pub Steps :
      Config H → DnsClient host.network → State Timed Reply → ℕ → State Timed Reply → Type 0
  Steps config client =
      Run config.tasks.item (answer_item N host config client) (err canceled) send_error join_error

  -- What the output stream has given the consumer.
  abbrev pub output : State Timed Reply → List Value
  output s = map show_reply s.shown

  -- From this state the threads can go on to the end of the output, and then the consumer has taken
  -- the replies to all values, in the order of the values.
  abbrev pub Delivers :
      Config H → DnsClient host.network → Timing → List Value → State Timed Reply → Type 0
  Delivers config client timing vals s =
      (m : ℕ) × (t : State Timed Reply) × Steps config client s m t
      × IsStopped t.coordinator
      × (t.responses ≡ [])
      × (t.shown ≡ all_replies (answer_item N host config client) (timed timing.late 0 vals))
      × (output t
          ≡ map show_reply
              (all_replies (answer_item N host config client) (timed timing.late 0 vals)))

  no-Panics :
      IsLawful host
      → HasQuietParsers H N
      → (config : Config H) → ((r : host.network.Response) → CanBeShown N host config r)
      → (client : DnsClient host.network) → WasMade N host config client
      → ¬ Panics (answer_item N host config client)
  unfolding answer_item
  no-Panics L quiet config shown client made ((v, late), m, e) =
      Succeeds-IsQuiet _ (query-Succeeds N host config L quiet shown client made late v) m e

  delivers :
      (config : Config H) (client : DnsClient host.network) (timing : Timing) (vals : List Value)
      (s : State Timed Reply)
      → ¬ Panics (answer_item N host config client)
      → Completes config.tasks.item
          (answer_item N host config client)
          (err canceled)
          send_error
          join_error
          timing.cancelled
          (timed timing.late 0 vals)
          s
      → Delivers config client timing vals s
  delivers config client timing vals s calm (m, t, r, over, empty, inl all) =
      (m, t, r, over, empty, all, ap (map show_reply) all)
  delivers config client timing vals s calm (m, t, r, over, empty, inr p) = absurd (calm p)

  started_with :
      (plugin_config : Res LabeledError (Option Value)) (call : Call) (input : PipelineData)
      (timing : Timing) (cached : Option (DnsClient host.network)) {config : Config H}
      {vals : List Value} {span : Span} {client : DnsClient host.network} {s₀ : State Timed Reply}
      → prepare N host sys plugin_config call input
        ≡ ok (config, PipelineData.list_stream vals span)
      → (connect N host config cached timing.late_connect).0 ≡ ok client
      → (run_impl N host sys plugin_config call input timing cached).0 ≡ ok (Output.streaming s₀)
      → serve N host config client timing (PipelineData.list_stream vals span)
        ≡ ok (Output.streaming s₀)
  unfolding run_impl run_prepared
  started_with plugin_config call input timing cached p c e = rw (p, c) at e

  -- A call on a stream that was started and not cancelled: wherever its threads stand, as long as
  -- the consumer listens and nothing interrupts, they can go on to the end of the output, and then
  -- the consumer has taken the replies to all values of the stream, in their order, an
  -- error as an error value. A buffer for as
  -- many values as there may be tasks takes less than 2^63 bytes, the parsers of hickory and Nushell
  -- do not panic, each response can be shown, and a client that was kept was
  -- made by `new`.
  pub run_impl-Delivers :
      IsLawful host
      → HasQuietParsers H N
      → (plugin_config : Res LabeledError (Option Value)) (call : Call) (input : PipelineData)
        (timing : Timing) (cached : Option (DnsClient host.network)) (config : Config H)
        (vals : List Value) (span : Span) (client : DnsClient host.network) (s₀ : State Timed Reply)
      → config.tasks.item * host.value_size < 2 ^ 63
      → ((r : host.network.Response) → CanBeShown N host config r)
      → ((c : DnsClient host.network) → cached ≡ some c → WasMade N host config c)
      → prepare N host sys plugin_config call input
        ≡ ok (config, PipelineData.list_stream vals span)
      → (connect N host config cached timing.late_connect).0 ≡ ok client
      → (run_impl N host sys plugin_config call input timing cached).0 ≡ ok (Output.streaming s₀)
      → {n : ℕ} {s : State Timed Reply} → Steps config client s₀ n s
      → s.listening ≡ true
      → s.cancelled ≡ false
      → Delivers config client timing vals s
  run_impl-Delivers L quiet plugin_config call input timing cached config vals span client s₀ small
        shown kept p c e {n} {s} r on live =
      let (some_tasks, same) =
        serve-Started N host sys L config client timing vals span
          (started_with plugin_config call input timing cached p c e) in
      let reserved =
        ap (λ b. start b timing.cancelled (timed timing.late 0 vals))
          (L.with_capacity-ok config.tasks.item small) in
      let made = connect-WasMade N host sys config cached timing.late_connect kept c in
      delivers config client timing vals s (no-Panics L quiet config shown client made) (
        Run-Completes config.tasks.item (answer_item N host config client) (err canceled) send_error
          join_error timing.cancelled (timed timing.late 0 vals) some_tasks
          (subst (λ s₁. Steps config client s₁ n s) (sym same ∙ reserved) r) on live)
