-- ===== src/Command/Query/Laws/Total.antt =====
-- When `DnsQuery::query` of src/dns/commands/query.rs ends with replies, whatever the network does.
use nu_plugin_dns.Prelude.{ℕ, suc, List, [], ◌∷◌, some, Bool, true, false}
use nu_plugin_dns.Prelude.{ok, err, panic, map_ok, ◌>>=◌, Succeeds}
use nu_plugin_dns.Prelude.{String, ◌⊎◌, inl, inr, ◌∙◌, >>=-eq-panic, >>=-of_ok, >>=-of_panic}
use nu_plugin_dns.Prelude.{IsQuiet, map_err-IsQuiet, ◌≡◌, refl, ap}
use nu_plugin_dns.Prelude.Outcome.{Res}
use nu_plugin_dns.Nu.{Value, Span, span_of, LabeledError}
use nu_plugin_dns.Nu.Protocol.{NuProtocol}
use nu_plugin_dns.Hickory.{Hickory}
use nu_plugin_dns.Hickory.Message.{Query}
use nu_plugin_dns.Config.{Config}
use nu_plugin_dns.Client.{Item, response, failure, DnsClient, new, send}
use nu_plugin_dns.Client.Sending.{send-new}
use nu_plugin_dns.Serde.Query.{try_from_value}
use nu_plugin_dns.Serde.Query.Laws.Quiet.{HasQuietParsers, try_from_value-IsQuiet}
use nu_plugin_dns.Serde.Message.{new_message, message_value}
use nu_plugin_dns.Serde.Message.Laws.{
  IsReadableMessage, HasSupportedOptions, message_value-Succeeds,
}
use nu_plugin_dns.Command.Query.{
  Reply, Host, IsLawful, reply_of, exchange, ask, await_answer, answer_all, query,
}

-- What succeeds does not panic.
pub Succeeds-IsQuiet : {E A : Type 0} (m : Res E A) → Succeeds m → IsQuiet m
Succeeds-IsQuiet m (a, e) s p = cc

map_ok-Succeeds : {E A B : Type 0} (f : A → B) (m : Res E A) → Succeeds m → Succeeds (map_ok f m)
map_ok-Succeeds f m (a, e) = (f a, ap (map_ok f) e)

module _ {H : Hickory} (N : NuProtocol) (host : Host H) (config : Config H) where
  -- A response that can be shown: its message has an encoding and is readable.
  abbrev pub CanBeShown : host.network.Response → Type 0
  CanBeShown r =
      ((bytes : List ℕ) × (host.to_bytes (host.into_message r) ≡ some bytes))
      × IsReadableMessage config host.chrono host.iteration (host.into_message r)
      × HasSupportedOptions config host.chrono host.iteration (host.into_message r).edns

  first_answer-IsQuiet :
      IsLawful host
      → (items : List (Item host.network.Response)) → IsQuiet (host.first_answer items)
  first_answer-IsQuiet L [] s p = let (t, e) = L.first_none in cc
  first_answer-IsQuiet L (response r ∷ rest) s p = let e = L.first_response r rest in cc
  first_answer-IsQuiet L (failure k ∷ rest) s p = let (t, e) = L.first_failure k rest in cc

  await_answer-IsQuiet :
      IsLawful host
      → (late : Bool) (span : Span) (items : List (Item host.network.Response))
      → IsQuiet (await_answer N host config late span items)
  unfolding await_answer
  await_answer-IsQuiet L true span items = λ s p. cc
  await_answer-IsQuiet L false span items =
      map_err-IsQuiet _ (host.first_answer items) (first_answer-IsQuiet L items)

  -- A response turned into a value.
  abbrev pub show_response : host.network.Response → Reply
  show_response r = new_message host.to_bytes (host.into_message r) >>= λ (msg, bytes).
      message_value config host.chrono host.iteration msg bytes

  shown-IsQuiet : (r : host.network.Response) → CanBeShown r → IsQuiet (show_response r)
  unfolding new_message
  shown-IsQuiet r ((bytes, e), readable, supported) =
      rw (e, new_message)
        (Succeeds-IsQuiet _ (
          message_value-Succeeds config host.chrono host.iteration (host.into_message r) bytes
            readable supported))

  -- The client can send: `new` made it, from some configuration.
  abbrev pub WasMade : DnsClient host.network → Type 0
  WasMade client =
      (cfg : Config H) × (bg : List host.network.Background) × (new host.network cfg
        ≡ ok (client, bg))

  -- There is a result, or the panic of turning some response into a value.
  abbrev pub HasOutcome : {A : Type 0} → Res ⊥ A → Type 0
  HasOutcome x =
      Succeeds x
      ⊎ ((r : host.network.Response) × (m : String) × (show_response r ≡ panic m) × (x ≡ panic m))

  >>=-HasOutcome :
      {A B : Type 0} (m : Res ⊥ A) (f : A → Res ⊥ B)
      → HasOutcome m
      → ((a : A) → HasOutcome (f a))
      → HasOutcome (m >>= f)
  >>=-HasOutcome m f (inr (r, s, p, q)) h = inr (r, s, p, >>=-of_panic m f q)
  >>=-HasOutcome m f (inl (a, e)) h = elim (h a) [
    | inl (b, e') ↦ inl (b, >>=-of_ok m f e ∙ e')
    | inr (r, s, p, q) ↦ inr (r, s, p, >>=-of_ok m f e ∙ q)
  ]

  module _ (L : IsLawful host) (client : DnsClient host.network) (made : WasMade client)
      (span : Span) (late : ℕ → Bool) where
    exchange-panic :
        (i : ℕ) (q : Query H) {m : String}
        → exchange N host config client span (late i) q ≡ panic m
        → (r : host.network.Response) × (show_response r ≡ panic m)
    unfolding exchange
    exchange-panic i q {m} e =
        let (cfg, bg, was) = made in
        let request = host.request_for q.name q.query_class q.query_type in
        elim (>>=-eq-panic (send host.network client request) _ e) [
          | inl p ↦ absurd (Succeeds-IsQuiet _ (send-new host.network cfg request was) m p)
          | inr (items, _, e') ↦
              elim (>>=-eq-panic (await_answer N host config (late i) span items) _ e') [
                | inl p ↦ absurd (await_answer-IsQuiet L (late i) span items m p)
                | inr (r, _, p) ↦ (r, p)
              ]
        ]

    reply_of-HasOutcome :
        (i : ℕ) (q : Query H) (x : Reply)
        → exchange N host config client span (late i) q ≡ x
        → HasOutcome (reply_of x)
    reply_of-HasOutcome i q (ok v) e = inl (_, refl)
    reply_of-HasOutcome i q (err x) e = inl (_, refl)
    reply_of-HasOutcome i q (panic m) e = let (r, p) = exchange-panic i q e in inr (r, m, p, refl)

    ask-HasOutcome :
        (i : ℕ) (qs : List (Query H)) → HasOutcome (ask N host config client span late i qs)
    unfolding ask
    ask-HasOutcome i [] = inl (_, refl)
    ask-HasOutcome i (q ∷ qs) =
        >>=-HasOutcome (reply_of (exchange N host config client span (late i) q)) _
          (reply_of-HasOutcome i q _ refl)
          λ r.
            >>=-HasOutcome (ask N host config client span late (suc i) qs) _
              (ask-HasOutcome (suc i) qs) λ rs. inl (_, refl)

    answer_all-HasOutcome :
        (parsed : Res LabeledError (List (Query H)))
        → IsQuiet parsed
        → HasOutcome (answer_all N host config client span late parsed)
    unfolding answer_all
    answer_all-HasOutcome (ok qs) h = elim (ask-HasOutcome 0 qs) [
      | inl done ↦ inl (map_ok-Succeeds host.arrange _ done)
      | inr (r, m, p, e) ↦ inr (r, m, p, ap (map_ok host.arrange) e)
    ]
    answer_all-HasOutcome (err e) h = inl (_, refl)
    answer_all-HasOutcome (panic m) h = absurd (h m refl)

  -- Whatever the input, the network's answers and the timeouts, a query by a client that `new` made
  -- ends with replies, or turning some response into a value panics and the query with it, if the
  -- parsers of hickory and Nushell do not panic.
  pub query-HasOutcome :
      IsLawful host
      → HasQuietParsers H N
      → (client : DnsClient host.network) → WasMade client
      → (late : ℕ → Bool) (input : Value) → HasOutcome (query N host config input client late)
  unfolding query
  query-HasOutcome L quiet client made late input =
      answer_all-HasOutcome L client made (span_of input) late
        (try_from_value H N host.order config input)
        (try_from_value-IsQuiet H N host.order config quiet input)

  -- A query whose responses can all be shown ends with replies.
  pub query-Succeeds :
      IsLawful host
      → HasQuietParsers H N
      → ((r : host.network.Response) → CanBeShown r)
      → (client : DnsClient host.network) → WasMade client
      → (late : ℕ → Bool) (input : Value) → Succeeds (query N host config input client late)
  query-Succeeds L quiet shown client made late input =
      elim (query-HasOutcome L quiet client made late input) [
        | inl done ↦ done
        | inr (r, m, p, _) ↦ absurd (shown-IsQuiet r (shown r) m p)
      ]
