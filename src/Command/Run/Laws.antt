-- ===== src/Command/Run/Laws.antt =====
-- What `run_impl` of src/dns/commands/query.rs does with its input, its client and a stream.
pub mod Delivery
pub mod Redirect
pub mod Quiet
pub mod Calm
use mathlib.Core.Path.{subst}
use nu_plugin_dns.Prelude.{
  ℕ, zero, suc, ◌<◌, String, List, [], ◌∷◌, Option, none, some, Bool, true, false, ◌==◌, leb,
}
use nu_plugin_dns.Prelude.{
  ok, err, panic, ◌>>=◌, >>=-eq-ok, ok-injective, map_ok, map_ok-eq-ok, Bool-cases,
}
use nu_plugin_dns.Prelude.{◌≡◌, ◌≢◌, refl, sym, ap, ◌∙◌, ◌⊎◌, inl, inr, arith}
use nu_plugin_dns.Prelude.Outcome.{Res}
use nu_plugin_dns.Nu.{Value, Span, LabeledError}
use nu_plugin_dns.Nu.Protocol.{NuProtocol}
use nu_plugin_dns.Hickory.{Hickory}
use nu_plugin_dns.Config.{Config}
use nu_plugin_dns.Config.Settings.{System}
use nu_plugin_dns.Client.{DnsClient, new}
use nu_plugin_dns.Cache.{dns_client}
use nu_plugin_dns.Command.Query.{IsUnfit, max_permits, Host, Reply, query, IsLawful}
use nu_plugin_dns.Command.Query.Laws.Total.{WasMade, CanBeShown, query-Succeeds, Succeeds-IsQuiet}
use nu_plugin_dns.Serde.Query.Laws.Quiet.{HasQuietParsers}
use nu_plugin_dns.Command.Stream.{State, start, Run, IsStopped}
use nu_plugin_dns.Command.Stream.Conserved.{all_replies, Panics}
use nu_plugin_dns.Command.Run.{
  PipelineData, Call, Timed, Timing, timed, Output, answer_item, serve, connect, prepare,
  run_prepared, run_impl,
}

-- There are channels of so many places, or making one panics.
pub channel_cases :
    {H : Hickory} (host : Host H)
    → IsLawful host
    → (n : ℕ)
    → ((0 < n) × (host.mpsc_channel n ≡ ok tt))
      ⊎ (IsUnfit n × (m : String) × (host.mpsc_channel n ≡ panic m))
channel_cases host L zero = let (m, e) = L.mpsc_channel-panic 0 (inl refl) in inr (inl refl, m, e)
channel_cases host L (suc n) = elim (Bool-cases (leb (suc n) max_permits)) [
  | inl fits ↦ inl (omega arith, L.mpsc_channel-ok (suc n) (omega arith) (ground arith))
  | inr large ↦
      let unfit : IsUnfit (suc n) = inr (ground arith) in
      let (m, e) = L.mpsc_channel-panic (suc n) unfit in inr (unfit, m, e)
]

module _ {H : Hickory} (N : NuProtocol) (host : Host H) (sys : System) where
  -- Only the first positional argument counts: any further names are ignored without an error.
  pub run_impl-rest :
      (plugin_config : Res LabeledError (Option Value)) (call : Call) (v : Value)
      (rest : List Value) (input : PipelineData) (timing : Timing)
      (cached : Option (DnsClient host.network))
      → call.positional ≡ v ∷ rest
      → run_impl N host sys plugin_config call input timing cached
        ≡ run_impl N host sys plugin_config
            (record call { positional = v ∷ [] })
            input
            timing
            cached
  unfolding run_impl prepare
  run_impl-rest plugin_config call v rest input timing cached e = rw e

  module _ (plugin_config : Res LabeledError (Option Value)) (call : Call) (input : PipelineData)
      (timing : Timing) where
    -- A client that the plugin keeps from an earlier call serves this one, whatever server,
    -- protocol, certificate name and DNSSEC mode this call's configuration names, and is kept on.
    pub run_impl-cached :
        (client : DnsClient host.network) {config : Config H} {data_ : PipelineData}
        → prepare N host sys plugin_config call input ≡ ok (config, data_)
        → timing.late_connect ≡ false
        → run_impl N host sys plugin_config call input timing (some client)
          ≡ (serve N host config client timing data_, some client)
    unfolding run_impl run_prepared connect dns_client
    run_impl-cached client p now = rw (p, now)

  dns_client-none :
      (made : Res LabeledError (DnsClient host.network × List host.network.Background))
      {client : DnsClient host.network}
      → (dns_client (map_ok (λ m. m.0) made) none).0 ≡ ok client
      → (bg : List host.network.Background) × (made ≡ ok (client, bg))
  unfolding dns_client
  dns_client-none (ok (c, bg)) e = (bg, ap (λ c. ok (c, bg)) (ok-injective e))
  dns_client-none (err x) e = cc
  dns_client-none (panic m) e = cc

  pub connect-WasMade :
      (config : Config H) (cached : Option (DnsClient host.network)) (late : Bool)
      {client : DnsClient host.network}
      → ((c : DnsClient host.network) → cached ≡ some c → WasMade N host config c)
      → (connect N host config cached late).0 ≡ ok client
      → WasMade N host config client
  unfolding connect dns_client
  connect-WasMade config cached true h e = cc
  connect-WasMade config (some c) false h e =
      subst (WasMade N host config) (ok-injective e) (h c refl)
  connect-WasMade config none false h e =
      let (bg, made) = dns_client-none (new host.network config) e in (config, bg, made)

  -- What a call on a stream starts, if it starts anything.
  abbrev pub Started : Config H → Timing → List Value → State Timed Reply → Type 0
  Started config timing vals s =
      (0 < config.tasks.item)
      × (start (host.with_capacity config.tasks.item) timing.cancelled (timed timing.late 0 vals)
          ≡ s)

  pub serve-Started :
      IsLawful host
      → (config : Config H) (client : DnsClient host.network) (timing : Timing) (vals : List Value)
        (span : Span) {s : State Timed Reply}
      → serve N host config client timing (PipelineData.list_stream vals span)
        ≡ ok (Output.streaming s)
      → Started config timing vals s
  unfolding serve
  serve-Started L config client timing vals span e = elim (channel_cases host L config.tasks.item) [
    | inl (some_tasks, made) ↦ (some_tasks, ap started_of (ok-injective (rw made at e)))
    | inr (_, m, unmade) ↦ cc (rw unmade at e)
  ]
    where
      started_of : Output → State Timed Reply
      started_of (Output.streaming s) = s
      started_of (Output.values _) = start (ok tt) false []
