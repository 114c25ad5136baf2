-- ===== src/Command/Run/Laws/Calm.antt =====
-- When a call of `run_impl` of src/dns/commands/query.rs panics.

use mathlib.Core.Path.{subst}
use nu_plugin_dns.Prelude.{String, Option, some}
use nu_plugin_dns.Prelude.{ok, err, panic, >>=-eq-ok, ok-injective}
use nu_plugin_dns.Prelude.{IsQuiet, ok-IsQuiet, >>=-IsQuiet, >>=-eq-panic}
use nu_plugin_dns.Prelude.{◌↔◌, ◌≡◌, refl, ap, inl, inr}
use nu_plugin_dns.Prelude.Outcome.{Res}
use nu_plugin_dns.Nu.{Value, LabeledError}
use nu_plugin_dns.Nu.Protocol.{NuProtocol}
use nu_plugin_dns.Hickory.{Hickory}
use nu_plugin_dns.Config.{Config}
use nu_plugin_dns.Config.Settings.{System}
use nu_plugin_dns.Config.FromValues.{from_nu}
use nu_plugin_dns.Config.Laws.{IsPlain}
use nu_plugin_dns.Config.Laws.Quiet.{HasQuietSettings, from_values-IsQuiet}
use nu_plugin_dns.Client.{DnsClient, new}
use nu_plugin_dns.Client.Laws.{NeverPanics, new-from_values}
use nu_plugin_dns.Serde.Query.Laws.Quiet.{HasQuietParsers}
use nu_plugin_dns.Command.Query.{Host, IsLawful}
use nu_plugin_dns.Command.Query.Laws.Total.{WasMade, CanBeShown}
use nu_plugin_dns.Command.Run.{
  PipelineData, Call, Timing, resolve_input, connect, prepare, serve, run_prepared, run_impl,
}
use nu_plugin_dns.Command.Run.Laws.{connect-WasMade}
use nu_plugin_dns.Command.Run.Laws.Quiet.{
  IsUnfitStream, serve-panic, resolve_input-IsQuiet, connect-IsQuiet,
}

module _ {H : Hickory} (N : NuProtocol) (host : Host H) (sys : System)
    (plugin_config : Res LabeledError (Option Value)) (call : Call) (input : PipelineData) where
  prepare-IsQuiet :
      HasQuietParsers H N
      → HasQuietSettings N sys
      → IsQuiet plugin_config
      → IsQuiet (prepare N host sys plugin_config call input)
  unfolding prepare from_nu
  prepare-IsQuiet parsers settings quiet = >>=-IsQuiet plugin_config _ quiet λ given.
      >>=-IsQuiet (from_nu H N sys given call.flags) _
        (from_values-IsQuiet H N sys parsers settings _ tt)
        λ config.
          >>=-IsQuiet (resolve_input N _ input) _ (resolve_input-IsQuiet N host _ input)
            λ data_. ok-IsQuiet _

  prepared-new :
      NeverPanics host.network
      → IsPlain sys
      → {config : Config H} {data_ : PipelineData}
      → prepare N host sys plugin_config call input ≡ ok (config, data_)
      → IsQuiet (new host.network config)
  unfolding prepare from_nu
  prepared-new connects plain {config} e =
      let (given, _, r) = >>=-eq-ok plugin_config _ e in
      let (config', made, r') = >>=-eq-ok (from_nu H N sys given call.flags) _ r in
      let (data_, _, same) = >>=-eq-ok (resolve_input N _ input) _ r' in
      subst (λ c. IsQuiet (new host.network c)) (ap (λ p. p.0) (ok-injective same))
        (new-from_values host.network N sys _ tt connects plain made)

module _ {H : Hickory} (N : NuProtocol) (host : Host H) (sys : System) where
  -- What the code calls of hickory and Nushell does not panic, each response can be shown, and the machine's own name
  -- servers are reached without TLS.
  pub record IsCalm : Type 0 where
    pub lawful : IsLawful host
    pub parsers : HasQuietParsers H N
    pub settings : HasQuietSettings N sys
    pub connects : NeverPanics host.network
    pub plain : IsPlain sys
    pub shown : (config : Config H) (r : host.network.Response) → CanBeShown N host config r

  module _ (plugin_config : Res LabeledError (Option Value)) (call : Call) (input : PipelineData)
      (timing : Timing) (cached : Option (DnsClient host.network)) where
    -- The call gets as far as a stream, with a client, and no channel has so many places.
    abbrev pub IsUnfitCall : Res LabeledError (Config H × PipelineData) → Type 0
    IsUnfitCall p =
        (config : Config H) × (data_ : PipelineData) × (client : DnsClient host.network) × (p
          ≡ ok (config, data_))
        × ((connect N host config cached timing.late_connect).0 ≡ ok client)
        × IsUnfitStream N host config data_

    prepared_panic :
        IsCalm
        → IsQuiet plugin_config
        → ((config : Config H) (c : DnsClient host.network)
            → cached ≡ some c
            → WasMade N host config c)
        → (p : Res LabeledError (Config H × PipelineData)) {m : String}
        → prepare N host sys plugin_config call input ≡ p
        → (run_prepared N host cached timing p).0 ≡ panic m
        → IsUnfitCall p
    unfolding run_prepared
    prepared_panic calm quiet kept (err x) p e = cc
    prepared_panic calm quiet kept (panic n) p e =
        absurd
          (prepare-IsQuiet N host sys plugin_config call input calm.parsers calm.settings quiet n p)
    prepared_panic calm quiet kept (ok (config, data_)) {m} p e =
        let late = timing.late_connect in
        elim (>>=-eq-panic (connect N host config cached late).0 _ e) [
          | inl n ↦ absurd (
              connect-IsQuiet N host config cached late
                (prepared-new N host sys plugin_config call input calm.connects calm.plain p) m n)
          | inr (client, c, served) ↦ (
            config,
            data_,
            client,
            refl,
            c,
            serve-panic N host calm.lawful calm.parsers config (calm.shown config) client
                (connect-WasMade N host sys config cached late (kept config) c) timing data_ served,
          )
        ]

    unfit_panics :
        IsCalm
        → IsUnfitCall (prepare N host sys plugin_config call input)
        → (m : String) × ((run_impl N host sys plugin_config call input timing cached).0 ≡ panic m)
    unfolding run_impl run_prepared serve
    unfit_panics calm (config, data_, client, p, c, (vals, span, same, unfit)) =
        let (m, e) = calm.lawful.mpsc_channel-panic config.tasks.item unfit in
        (m, rw (p, c, same, e))

    -- A call panics exactly if it gets as far as a stream, with a client, and the number of tasks is
    -- 0 or more than 2^61 - 1, if what the code calls of hickory and Nushell does not
    -- panic, each response can be shown, the machine's own name servers are reached without TLS and a client
    -- that is kept was made by `new`.
    pub run_impl-panic :
        IsCalm
        → IsQuiet plugin_config
        → ((config : Config H) (c : DnsClient host.network)
            → cached ≡ some c
            → WasMade N host config c)
        → ((m : String) × ((run_impl N host sys plugin_config call input timing cached).0
              ≡ panic m))
          ↔ IsUnfitCall (prepare N host sys plugin_config call input)
    unfolding run_impl
    run_impl-panic calm quiet kept = (
      λ (m, e). prepared_panic calm quiet kept (prepare N host sys plugin_config call input) refl e,
      unfit_panics calm,
    )
