-- ===== src/Plugin/OneClient.antt =====
-- One client serves a whole session of the plugin of src/dns/mod.rs.
use mathlib.Core.Path.{subst}
use nu_plugin_dns.Prelude.{List, [], ◌∷◌, ◌++◌, none, some, All}
use nu_plugin_dns.Prelude.{ok, err, panic}
use nu_plugin_dns.Prelude.{◌≡◌, refl, sym, ap, ◌∙◌, ◌⊎◌, inl, inr}
use nu_plugin_dns.Prelude.Outcome.{Res}
use nu_plugin_dns.Nu.{LabeledError}
use nu_plugin_dns.Nu.Protocol.{NuProtocol}
use nu_plugin_dns.Hickory.{Hickory}
use nu_plugin_dns.Config.Settings.{System}
use nu_plugin_dns.Client.{DnsClient}
use nu_plugin_dns.Command.Query.{Host}
use nu_plugin_dns.Command.Run.{Output, run_prepared, run_impl}
use nu_plugin_dns.Plugin
use nu_plugin_dns.Plugin.{
  Tracker, Dns, Request, timing_of, Event, called, interrupted, spawn_all, cancel_all, run, session,
}
use nu_plugin_dns.Plugin.Served.{
  IsFailure, cancelled_after, prepared, serve_prepared, served, Connects, run_prepared-some,
  run_prepared-none,
}

module _ {T : Tracker} {H : Hickory} (N : NuProtocol) (host : Host H) (sys : System) where
  abbrev pub outputs : List Event → Dns T host.network → List (Res LabeledError Output)
  outputs es dns = (session N host sys es dns).0

  abbrev pub last : List Event → Dns T host.network → Dns T host.network
  last es dns = (session N host sys es dns).1

  spawn_all-client :
      (o : Res LabeledError Output) (dns : Dns T host.network)
      → ((spawn_all o dns).client ≡ dns.client) × ((spawn_all o dns).cancel ≡ dns.cancel)
  unfolding spawn_all
  spawn_all-client (ok (Output.streaming _)) dns = (refl, refl)
  spawn_all-client (ok (Output.values _)) dns = (refl, refl)
  spawn_all-client (err _) dns = (refl, refl)
  spawn_all-client (panic _) dns = (refl, refl)

  -- A call in terms of the client that is kept.
  called_lem :
      (r : Request) (dns : Dns T host.network)
      → let q = run_prepared N host dns.client (timing_of r dns.cancel) (prepared N host sys r) in
        ((run N host sys r dns).0 ≡ q.0)
        × ((run N host sys r dns).1.client ≡ q.1)
        × ((run N host sys r dns).1.cancel ≡ dns.cancel)
  unfolding run run_impl
  called_lem r dns =
      let (output, client) =
        run_prepared N host dns.client (timing_of r dns.cancel) (prepared N host sys r) in
      let (same, spent) = spawn_all-client output (record dns { client = client }) in
      (refl, same, spent)

  one_output :
      (r : Request) (es : List Event) (dns : Dns T host.network) (client : DnsClient host.network)
      → (run N host sys r dns).0
        ≡ serve_prepared N host sys client dns.cancel r (prepared N host sys r)
      → outputs es (run N host sys r dns).1
        ≡ served N host sys client (run N host sys r dns).1.cancel es
      → outputs (called r ∷ es) dns ≡ served N host sys client dns.cancel (called r ∷ es)
  unfolding session
  one_output r es dns client output_ok rest =
      let (_, _, spent) = called_lem r dns in
      ap (λ o. o ∷ outputs es (run N host sys r dns).1) output_ok
      ∙ ap (λ os. serve_prepared N host sys client dns.cancel r (prepared N host sys r) ∷ os)
          (rest ∙ ap (λ c. served N host sys client c es) spent)

  session_some :
      (es : List Event) (dns : Dns T host.network) (client : DnsClient host.network)
      → dns.client ≡ some client
      → (outputs es dns ≡ served N host sys client dns.cancel es)
        × ((last es dns).client ≡ some client)
  unfolding session
  session_some [] dns client e = (refl, e)
  session_some (interrupted ∷ es) dns client e = session_some es (cancel_all dns) client e
  session_some (called r ∷ es) dns client e =
      let (output_ok, client_ok, spent) = called_lem r dns in
      let q =
        ap (λ k. run_prepared N host k (timing_of r dns.cancel) (prepared N host sys r)) e
        ∙ run_prepared-some N host sys client dns.cancel r (prepared N host sys r) in
      let dns' = (run N host sys r dns).1 in
      let (rest, kept) = session_some es dns' client (client_ok ∙ ap (λ p. p.1) q) in
      (one_output r es dns client (output_ok ∙ ap (λ p. p.0) q) rest, kept)

  -- Before a client is made, every call fails.
  abbrev pub MakesNone : List Event → Dns T host.network → Type 0
  MakesNone es dns = ((last es dns).client ≡ none) × All IsFailure (outputs es dns)

  -- A client is made for one of the calls, those before it fail, and it and all later ones are
  -- given this client.
  abbrev pub MakesOne : List Event → Dns T host.network → Type 0
  MakesOne es dns =
      (before : List Event) × (r : Request) × (after : List Event) × (client : DnsClient
        host.network)
      × (es ≡ before ++ called r ∷ after)
      × Connects N host sys r client
      × All IsFailure (outputs before dns)
      × (outputs es dns
          ≡ outputs before dns
            ++ served N host sys client (cancelled_after dns.cancel before) (called r ∷ after))
      × ((last es dns).client ≡ some client)

  -- A call of a plugin without a client.
  first_call :
      (r : Request) (dns : Dns T host.network)
      → dns.client ≡ none
      → (IsFailure (run N host sys r dns).0 × ((run N host sys r dns).1.client ≡ none))
        ⊎ ((client : DnsClient host.network) × Connects N host sys r client
            × ((run N host sys r dns).0
                ≡ serve_prepared N host sys client dns.cancel r (prepared N host sys r))
            × ((run N host sys r dns).1.client ≡ some client))
  first_call r dns e =
      let (output_ok, client_ok, _) = called_lem r dns in
      let same =
        ap (λ k. run_prepared N host k (timing_of r dns.cancel) (prepared N host sys r)) e in
      elim (run_prepared-none N host sys dns.cancel r (prepared N host sys r) refl) [
        | inl (failed, still) ↦ inl (
          subst IsFailure (sym (output_ok ∙ ap (λ q. q.0) same)) failed,
          client_ok ∙ ap (λ q. q.1) same ∙ still,
        )
        | inr (client, c, q) ↦
            inr (
              client,
              c,
              output_ok ∙ ap (λ q. q.0) (same ∙ q),
              client_ok ∙ ap (λ q. q.1) (same ∙ q),
            )
      ]

  session_after :
      (r : Request) (es : List Event) (dns : Dns T host.network)
      → IsFailure (run N host sys r dns).0
      → MakesNone es (run N host sys r dns).1 ⊎ MakesOne es (run N host sys r dns).1
      → MakesNone (called r ∷ es) dns ⊎ MakesOne (called r ∷ es) dns
  unfolding session
  session_after r es dns fails (inl (k, all)) = inl (k, (fails, all))
  session_after r es dns fails (inr (before, r', after, client, split, c, failed, same, kept)) =
      let (_, _, spent) = called_lem r dns in
      let output = (run N host sys r dns).0 in
      inr (
        called r ∷ before,
        r',
        after,
        client,
        ap (λ l. called r ∷ l) split,
        c,
        (fails, failed),
        ap (λ os. output ∷ os)
            (same
              ∙ ap
                  (λ x.
                    outputs before (run N host sys r dns).1
                    ++ served N host sys client (cancelled_after x before) (called r' ∷ after))
                  spent),
        kept,
      )

  session_from :
      (es : List Event) (dns : Dns T host.network)
      → dns.client ≡ none
      → MakesNone es dns ⊎ MakesOne es dns
  unfolding session
  session_from [] dns e = inl (e, tt)
  session_from (interrupted ∷ es) dns e = elim (session_from es (cancel_all dns) e) [
    | inl h ↦ inl h
    | inr (before, r, after, client, split, c, failed, same, kept) ↦ inr (
      interrupted ∷ before,
      r,
      after,
      client,
      ap (λ l. interrupted ∷ l) split,
      c,
      failed,
      same,
      kept,
    )
  ]
  session_from (called r ∷ es) dns e = elim (first_call r dns e) [
    | inl (failed, still) ↦
        session_after r es dns failed (session_from es (run N host sys r dns).1 still)
    | inr (client, c, output_ok, k) ↦
        let (rest, kept) = session_some es (run N host sys r dns).1 client k in
        inr ([], r, es, client, refl, c, tt, one_output r es dns client output_ok rest, kept)
  ]

module _ (T : Tracker) {H : Hickory} (N : NuProtocol) (host : Host H) (sys : System) where
  -- A session of calls and interrupts of a new plugin: either every call fails and no client is
  -- kept, or a client is made from the configuration of one of the calls, those before it fail, and
  -- it and all later calls are served by this one client, whatever they are configured with; each
  -- call on a stream after an interrupt starts cancelled.
  pub session-new :
      (es : List Event)
      → MakesNone {T = T} N host sys es Plugin.new ⊎ MakesOne {T = T} N host sys es Plugin.new
  unfolding Plugin.new
  session-new es = session_from N host sys es Plugin.new refl
