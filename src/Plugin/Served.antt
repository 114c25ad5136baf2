-- ===== src/Plugin/Served.antt =====
-- The calls of the plugin of src/dns/mod.rs with a client at hand, and without one.
use nu_plugin_dns.Prelude.{List, [], ◌∷◌, Option, none, some, Bool, true, false, Bool-cases}
use nu_plugin_dns.Prelude.{ok, err, panic, ◌>>=◌, if◌then◌else◌}
use nu_plugin_dns.Prelude.{◌≡◌, refl, ◌⊎◌, inl, inr}
use nu_plugin_dns.Prelude.Outcome.{Res}
use nu_plugin_dns.Nu.{LabeledError}
use nu_plugin_dns.Nu.Protocol.{NuProtocol}
use nu_plugin_dns.Hickory.{Hickory}
use nu_plugin_dns.Config.{Config}
use nu_plugin_dns.Config.Settings.{System}
use nu_plugin_dns.Client.{DnsClient}
use nu_plugin_dns.Client
use nu_plugin_dns.Cache.{dns_client}
use nu_plugin_dns.Command.Query.{Host}
use nu_plugin_dns.Command.Run.{
  PipelineData, Output, serve, connect, connect_timed_out, prepare, run_prepared,
}
use nu_plugin_dns.Plugin.{Request, timing_of, Event, called, interrupted}

abbrev pub IsFailure : Res LabeledError Output → Type 0
IsFailure (ok _) = ⊥
IsFailure (err _) = Unit
IsFailure (panic _) = Unit

-- Is the token spent after these events?
abbrev pub cancelled_after : Bool → List Event → Bool
cancelled_after c [] = c
cancelled_after c (interrupted ∷ es) = cancelled_after true es
cancelled_after c (called _ ∷ es) = cancelled_after c es

module _ {H : Hickory} (N : NuProtocol) (host : Host H) (sys : System) where
  abbrev pub prepared : Request → Res LabeledError (Config H × PipelineData)
  prepared r = prepare N host sys r.plugin_config r.call r.input

  -- A call that was prepared, with this client at hand.
  abbrev pub serve_prepared :
      DnsClient host.network
      → Bool
      → Request
      → Res LabeledError (Config H × PipelineData)
      → Res LabeledError Output
  serve_prepared client cancelled r p = p >>= λ (config, input).
      if r.late_connect
      then err (connect_timed_out N host config)
      else serve N host config client (timing_of r cancelled) input

  -- A session in which every call has this client at hand.
  abbrev pub served : DnsClient host.network → Bool → List Event → List (Res LabeledError Output)
  served client cancelled [] = []
  served client cancelled (interrupted ∷ es) = served client true es
  served client cancelled (called r ∷ es) =
      serve_prepared client cancelled r (prepared r) ∷ served client cancelled es

  -- The call for which a client was made.
  pub record Connects (r : Request) (client : DnsClient host.network) : Type 0 where
    pub config : Config H
    pub input : PipelineData
    pub background : List host.network.Background
    pub prepared_ok : prepared r ≡ ok (config, input)
    pub in_time : r.late_connect ≡ false
    pub made : Client.new host.network config ≡ ok (client, background)

  pub run_prepared-some :
      (client : DnsClient host.network) (cancelled : Bool) (r : Request)
      (p : Res LabeledError (Config H × PipelineData))
      → run_prepared N host (some client) (timing_of r cancelled) p
        ≡ (serve_prepared client cancelled r p, some client)
  unfolding run_prepared connect dns_client
  run_prepared-some client cancelled r (ok (config, input)) = elim (Bool-cases r.late_connect) [
    | inl late ↦ rw late
    | inr now ↦ rw now
  ]
  run_prepared-some client cancelled r (err e) = refl
  run_prepared-some client cancelled r (panic m) = refl

  -- The outcomes of a call of a plugin without a client.
  abbrev pub Fails : Res LabeledError Output × Option (DnsClient host.network) → Type 0
  Fails q = IsFailure q.0 × (q.1 ≡ none)

  abbrev pub MakesClient :
      Bool → Request → Res LabeledError Output × Option (DnsClient host.network) → Type 0
  MakesClient cancelled r q =
      (client : DnsClient host.network) × Connects r client
      × (q ≡ (serve_prepared client cancelled r (prepared r), some client))

  connected :
      (cancelled : Bool) (r : Request) (config : Config H) (input : PipelineData)
      (m : Res LabeledError (DnsClient host.network × List host.network.Background))
      → prepared r ≡ ok (config, input)
      → r.late_connect ≡ false
      → Client.new host.network config ≡ m
      → Fails (run_prepared N host none (timing_of r cancelled) (ok (config, input)))
        ⊎ MakesClient cancelled r
            (run_prepared N host none (timing_of r cancelled) (ok (config, input)))
  unfolding run_prepared connect dns_client
  connected cancelled r config input (ok (client, bg)) p now e = inr (
    client,
    record {
      config = config;
      input = input;
      background = bg;
      prepared_ok = p;
      in_time = now;
      made = e;
    },
    rw (p, now, e),
  )
  connected cancelled r config input (err x) p now e = inl (rw (now, e) tt, rw (now, e))
  connected cancelled r config input (panic x) p now e = inl (rw (now, e) tt, rw (now, e))

  pub run_prepared-none :
      (cancelled : Bool) (r : Request) (p : Res LabeledError (Config H × PipelineData))
      → prepared r ≡ p
      → Fails (run_prepared N host none (timing_of r cancelled) p)
        ⊎ MakesClient cancelled r (run_prepared N host none (timing_of r cancelled) p)
  unfolding run_prepared connect
  run_prepared-none cancelled r (err e) p = inl (tt, refl)
  run_prepared-none cancelled r (panic m) p = inl (tt, refl)
  run_prepared-none cancelled r (ok (config, input)) p = elim (Bool-cases r.late_connect) [
    | inl late ↦ inl (rw late tt, rw late)
    | inr now ↦ connected cancelled r config input (Client.new host.network config) p now refl
  ]
