-- ===== src/Command/Run/Laws/Redirect.antt =====
-- A client that the plugin keeps (src/dns/mod.rs) serves a call of src/dns/commands/query.rs without
-- regard to the server that the call names.
use nu_plugin_dns.Prelude.{
  ℕ, suc, String, List, [], ◌∷◌, ◌++◌, Option, some, Bool, true, false, if◌then◌else◌,
}
use nu_plugin_dns.Prelude.{collect_map, ok, err, panic, map_ok, ◌>>=◌, ◌≡◌, refl, sym, ap, ◌∙◌}
use nu_plugin_dns.Prelude.Outcome.{Res}
use mathlib.Core.Path.{fun_ext}
use nu_plugin_dns.Nu.{Value, Items, nil, cons, Span, Spanned, span_of, LabeledError, list_value}
use nu_plugin_dns.Nu.Protocol.{NuProtocol}
use nu_plugin_dns.Constants.{Protocol}
use nu_plugin_dns.Hickory.{Hickory}
use nu_plugin_dns.Hickory.Message as Wire
use nu_plugin_dns.Hickory.Message.{Query}
use nu_plugin_dns.Config.{Config, DnssecMode, SocketAddr}
use nu_plugin_dns.Config.Settings.{System}
use nu_plugin_dns.Client.{DnsClient, send}
use nu_plugin_dns.Std.Bytes.{Endian}
use nu_plugin_dns.Serde.Query.{
  try_from_value, try_from_items, all_labels, record_query, string_queries, label_queries,
}
use nu_plugin_dns.Serde.Message.{
  message_value, new_message, question_value, data_value, resource_value, parse_records,
  optional_edns, header_value,
}
use nu_plugin_dns.Serde.Code.{code_to_record_u16, code_to_record_u8}
use nu_plugin_dns.Serde.Query.{query_into_value}
use nu_plugin_dns.Serde.Util.{Chrono}
use nu_plugin_dns.Std.HashMap.{Iteration}
use nu_plugin_dns.Hickory.Rdata.Edns.{Edns}
use nu_plugin_dns.Command.Query.{
  Host, Reply, reply_of, exchange, await_answer, ask, answer_all, query,
}
use nu_plugin_dns.Command.Run.{PipelineData, Call, Timing, Output, lift, serve, prepare, run_impl}
use nu_plugin_dns.Command.Run.Laws.{run_impl-cached}

module _ {H : Hickory} (protocol : Spanned Protocol) (server : Spanned SocketAddr)
    (dns_name : Option (Spanned String)) (mode : Spanned DnssecMode) where
  -- The same configuration but for where and how to connect.
  abbrev pub redirect : Config H → Config H
  redirect c = record c {
    protocol = protocol;
    server = server;
    dns_name = dns_name;
    dnssec_mode = mode;
  }

  module _ (N : NuProtocol) (order : Endian) (config : Config H) where
    mutual
      unfolding try_from_value record_query string_queries label_queries

      value-redirect :
          (v : Value)
          → try_from_value H N order (redirect config) v ≡ try_from_value H N order config v
      value-redirect (Value.list vals span) =
          ap (λ each. if all_labels vals then label_queries H N order config vals span else each)
            (items-redirect vals)
      value-redirect _ = refl

      items-redirect :
          (vs : Items)
          → try_from_items H N order (redirect config) vs ≡ try_from_items H N order config vs
      items-redirect nil = refl
      items-redirect (cons v vs) =
          ap
            (λ m.
              m >>= λ qs. try_from_items H N order (redirect config) vs >>= λ rest. ok (qs ++ rest))
            (value-redirect v)
          ∙ ap (λ m. try_from_value H N order config v >>= λ qs. m >>= λ rest. ok (qs ++ rest))
              (items-redirect vs)

  question_value-redirect :
      (config : Config H) (qs : List (Query H))
      → question_value (redirect config) qs ≡ question_value config qs
  unfolding question_value query_into_value
  question_value-redirect config [] = refl
  question_value-redirect config (q ∷ []) = refl
  question_value-redirect config (_ ∷ q ∷ qs) = question_value-redirect config (q ∷ qs)

  module _ (config : Config H) (C : Chrono) (I : Iteration Value) where
    data_value-redirect :
        (d : Option Wire.Rdata) → data_value (redirect config) C I d ≡ data_value config C I d
    unfolding data_value
    data_value-redirect Option.none = refl
    data_value-redirect (some d) = refl

    resource_value-redirect :
        (r : Wire.Record H) → resource_value (redirect config) C I r ≡ resource_value config C I r
    unfolding resource_value code_to_record_u16
    resource_value-redirect r = rw (data_value-redirect r.rdata)

    parse_records-redirect :
        (rs : List (Wire.Record H))
        → parse_records (redirect config) C I rs ≡ parse_records config C I rs
    unfolding parse_records
    parse_records-redirect rs =
        ap (λ f. collect_map f rs >>= λ values. ok (list_value values))
          (fun_ext resource_value-redirect)

    optional_edns-redirect :
        (e : Option Edns) → optional_edns (redirect config) C I e ≡ optional_edns config C I e
    unfolding optional_edns
    optional_edns-redirect Option.none = refl
    optional_edns-redirect (some e) = refl

    -- A message is shown alike.
    message_value-redirect :
        (m : Wire.Message H) (bytes : List ℕ)
        → message_value (redirect config) C I m bytes ≡ message_value config C I m bytes
    unfolding message_value header_value code_to_record_u16 code_to_record_u8
    message_value-redirect m bytes = rw (
      parse_records-redirect m.answers,
      parse_records-redirect m.name_servers,
      parse_records-redirect m.additionals,
      optional_edns-redirect m.edns,
      question_value-redirect config m.queries,
    )

  module _ (N : NuProtocol) (host : Host H) (config : Config H)
      (client : DnsClient host.network) where
    exchange-redirect :
        (span : Span) (q : Query H) (late : Bool)
        → late ≡ false
        → exchange N host (redirect config) client span late q
          ≡ exchange N host config client span late q
    unfolding exchange await_answer
    exchange-redirect span q true h = cc
    exchange-redirect span q false h =
        let request = host.request_for q.name q.query_class q.query_type in
        ap
          (λ (f : Wire.Message H × List ℕ → Reply). send host.network client request >>= λ items.
            await_answer N host config false span items >>= λ resp.
            new_message host.to_bytes (host.into_message resp) >>= f)
          (fun_ext (λ p. message_value-redirect config host.chrono host.iteration p.0 p.1))

    module _ (span : Span) (late : ℕ → Bool) (in_time : (i : ℕ) → late i ≡ false) where
      ask-redirect :
          (i : ℕ) (qs : List (Query H))
          → ask N host (redirect config) client span late i qs
            ≡ ask N host config client span late i qs
      unfolding ask
      ask-redirect i [] = refl
      ask-redirect i (q ∷ qs) =
          ap
            (λ m. reply_of m >>= λ r.
              ask N host (redirect config) client span late (suc i) qs >>= λ rs. ok (r ∷ rs))
            (exchange-redirect span q (late i) (in_time i))
          ∙ ap
              (λ m. reply_of (exchange N host config client span (late i) q) >>= λ r.
                m >>= λ rs. ok (r ∷ rs))
              (ask-redirect (suc i) qs)

      answer_all-redirect :
          (parsed : Res LabeledError (List (Query H)))
          → answer_all N host (redirect config) client span late parsed
            ≡ answer_all N host config client span late parsed
      unfolding answer_all
      answer_all-redirect (ok qs) = ap (map_ok host.arrange) (ask-redirect 0 qs)
      answer_all-redirect (err e) = refl
      answer_all-redirect (panic m) = refl

    query-redirect :
        (late : ℕ → Bool)
        → ((i : ℕ) → late i ≡ false)
        → (input : Value)
        → query N host (redirect config) input client late ≡ query N host config input client late
    unfolding query
    query-redirect late in_time input =
        ap (answer_all N host (redirect config) client (span_of input) late)
          (value-redirect N host.order config input)
        ∙ answer_all-redirect (span_of input) late in_time
            (try_from_value H N host.order config input)

    serve-redirect :
        (timing : Timing)
        → ((i : ℕ) → timing.late 0 i ≡ false)
        → (val : Value)
        → serve N host (redirect config) client timing (PipelineData.value val)
          ≡ serve N host config client timing (PipelineData.value val)
    unfolding serve
    serve-redirect timing in_time val =
        ap
          (λ m. lift m >>= λ replies.
            collect_map (λ r. r) replies >>= λ vals. ok (Output.values (list_value vals)))
          (query-redirect (timing.late 0) in_time val)

  -- Once the plugin keeps a client, the server, the protocol, the certificate name and the DNSSEC
  -- mode of a later call make no difference: two calls on the same value whose configurations differ
  -- in these only have the same outcome, if neither connecting nor a question times out.
  pub run_impl-redirect :
      (N : NuProtocol) (host : Host H) (sys : System)
      (plugin_config plugin_config' : Res LabeledError (Option Value)) (call call' : Call)
      (input input' : PipelineData) (timing : Timing) (client : DnsClient host.network)
      (config : Config H) (val : Value)
      → prepare N host sys plugin_config call input ≡ ok (config, PipelineData.value val)
      → prepare N host sys plugin_config' call' input'
        ≡ ok (redirect config, PipelineData.value val)
      → timing.late_connect ≡ false
      → ((i : ℕ) → timing.late 0 i ≡ false)
      → run_impl N host sys plugin_config' call' input' timing (some client)
        ≡ run_impl N host sys plugin_config call input timing (some client)
  run_impl-redirect N host sys plugin_config plugin_config' call call' input input' timing client
        config val p p' now in_time =
      run_impl-cached N host sys plugin_config' call' input' timing client p' now
      ∙ ap (λ m. (m, some client)) (serve-redirect N host config client timing in_time val)
      ∙ sym (run_impl-cached N host sys plugin_config call input timing client p now)
