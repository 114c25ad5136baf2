-- ===== src/Command/Query/Laws.antt =====
-- What `DnsQuery::query` of src/dns/commands/query.rs replies to an input, in which order and how many.
pub mod Total
use mathlib.Core.List.{Perm}
use mathlib.Core.Path.{subst}
use nu_plugin_dns.Prelude.{
  ℕ, suc, String, List, [], ◌∷◌, Option, none, some, Bool, true, false, length,
}
use nu_plugin_dns.Prelude.{
  ok, err, panic, map_err, ◌>>=◌, >>=-eq-ok, ok-injective, map_ok-eq-ok, Succeeds,
}
use nu_plugin_dns.Prelude.{
  IsQuiet, >>=-IsQuiet, map_err-IsQuiet, ◌≡◌, ◌≢◌, refl, sym, ap, ◌∙◌, ◌⊎◌, inl, inr, arith,
}
use nu_plugin_dns.Prelude.Outcome.{Res}
use nu_plugin_dns.Nu.{Value, Span, span_of, LabeledError}
use nu_plugin_dns.Nu.Protocol.{NuProtocol}
use nu_plugin_dns.Hickory.{Hickory}
use nu_plugin_dns.Hickory.Message.{Query}
use nu_plugin_dns.Config.{Config}
use nu_plugin_dns.Client.{Item, response, failure, DnsClient, new, send}
use nu_plugin_dns.Client.Sending.{send-new}
use nu_plugin_dns.Serde.Query.{try_from_value}
use nu_plugin_dns.Serde.Query.Laws.{asked, length-try_from_value}
use nu_plugin_dns.Serde.Query.Laws.Quiet.{HasQuietParsers, try_from_value-IsQuiet}
use nu_plugin_dns.Serde.Message.{new_message, message_value}
use nu_plugin_dns.Serde.Message.Laws.{
  IsReadableMessage, HasSupportedOptions, message_value-Succeeds,
}
use nu_plugin_dns.Command.Query.{
  Reply, Host, IsLawful, reply_of, exchange, ask, await_answer, answer_all, query,
}

module _ {H : Hickory} (N : NuProtocol) (host : Host H) (config : Config H) where
  module _ (client : DnsClient host.network) (span : Span) (late : ℕ → Bool) where
    -- Each reply is that of the question at its place.
    abbrev pub AreReplies : ℕ → List (Query H) → List Reply → Type 0
    AreReplies i [] [] = Unit
    AreReplies i (q ∷ qs) (r ∷ rs) =
        (reply_of (exchange N host config client span (late i) q) ≡ ok r) × AreReplies (suc i) qs rs
    AreReplies i [] (_ ∷ _) = ⊥
    AreReplies i (_ ∷ _) [] = ⊥

    ask-AreReplies :
        (i : ℕ) (qs : List (Query H)) {rs : List Reply}
        → ask N host config client span late i qs ≡ ok rs
        → AreReplies i qs rs
    unfolding ask
    ask-AreReplies i [] e = subst (AreReplies i []) (ok-injective e) tt
    ask-AreReplies i (q ∷ qs) e =
        let (r, here, rest) =
          >>=-eq-ok (reply_of (exchange N host config client span (late i) q)) _ e in
        let (rs, later, same) = >>=-eq-ok (ask N host config client span late (suc i) qs) _ rest in
        subst (AreReplies i (q ∷ qs)) (ok-injective same) (here, ask-AreReplies (suc i) qs later)

    length-AreReplies :
        (i : ℕ) (qs : List (Query H)) (rs : List Reply) → AreReplies i qs rs → length rs ≡ length qs
    length-AreReplies i [] [] _ = refl
    length-AreReplies i (q ∷ qs) (r ∷ rs) (_, h) = ap suc (length-AreReplies (suc i) qs rs h)
    length-AreReplies i [] (_ ∷ _) h = absurd h
    length-AreReplies i (_ ∷ _) [] h = absurd h

  -- An input that is refused has one reply, the error as a value.
  abbrev pub IsRefused : Value → List Reply → Type 0
  IsRefused input rs =
      (e : LabeledError) × (try_from_value H N host.order config input ≡ err e)
      × (rs ≡ ok (Value.error e (span_of input)) ∷ [])

  -- An input that is accepted has the replies to its questions, in some order.
  abbrev pub IsAnswered : DnsClient host.network → (ℕ → Bool) → Value → List Reply → Type 0
  IsAnswered client late input rs =
      (qs : List (Query H)) × (answers : List Reply) × (try_from_value H N host.order config input
        ≡ ok qs)
      × AreReplies client (span_of input) late 0 qs answers
      × Perm rs answers
      × (length answers ≡ asked (length config.qtypes.item) input)

  query_cases :
      IsLawful host
      → (client : DnsClient host.network) (late : ℕ → Bool) (input : Value)
        (parsed : Res LabeledError (List (Query H))) {rs : List Reply}
      → try_from_value H N host.order config input ≡ parsed
      → answer_all N host config client (span_of input) late parsed ≡ ok rs
      → IsRefused input rs ⊎ IsAnswered client late input rs
  unfolding answer_all
  query_cases L client late input (err x) p e = inl (x, p, sym (ok-injective e))
  query_cases L client late input (panic m) p e = cc
  query_cases L client late input (ok qs) p e =
      let span = span_of input in
      let (answers, asked_ok, same) =
        map_ok-eq-ok host.arrange (ask N host config client span late 0 qs) e in
      let each = ask-AreReplies client span late 0 qs asked_ok in
      inr (
        qs,
        answers,
        p,
        each,
        subst (λ rs. Perm rs answers) same (L.arrange-Perm answers),
        length-AreReplies client span late 0 qs answers each
            ∙ length-try_from_value H N host.order config input p,
      )

  -- The replies to an input: one error value if the input is refused, and otherwise one reply for
  -- each question, as many as the input asks, in an order that the runtime chooses.
  pub query-IsAnswered :
      IsLawful host
      → (client : DnsClient host.network) (late : ℕ → Bool) (input : Value) {rs : List Reply}
      → query N host config input client late ≡ ok rs
      → IsRefused input rs ⊎ IsAnswered client late input rs
  unfolding query
  query-IsAnswered L client late input e =
      query_cases L client late input (try_from_value H N host.order config input) refl e
