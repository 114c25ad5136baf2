-- ===== src/Command/Query.antt =====
-- `DnsQuery::query` of src/dns/commands/query.rs: the replies to one input value.
pub mod Laws
use nu_plugin_dns.Prelude.{
  ◌⊎◌, ◌<◌, ◌≤◌, ◌*◌, ◌^◌, ◌-◌, ℕ, suc, String, ◌<>◌, List, [], ◌∷◌, Option, Bool, if◌then◌else◌,
}
use nu_plugin_dns.Prelude.{ok, err, panic, map_err, map_ok, ◌>>=◌, ◌≡◌}
use nu_plugin_dns.Prelude.Outcome.{Res}
use mathlib.Core.List.{Perm}
use nu_plugin_dns.Nu.{Value, Span, span_of, LabeledError, labeled}
use nu_plugin_dns.Nu.Protocol.{NuProtocol}
use nu_plugin_dns.Std.Bytes.{Endian}
use nu_plugin_dns.Std.HashMap.{Iteration}
use nu_plugin_dns.Hickory.{Hickory}
use nu_plugin_dns.Hickory.Message as Wire
use nu_plugin_dns.Hickory.Message.{Query}
use nu_plugin_dns.Config.{Config, SocketAddr}
use nu_plugin_dns.Client.{Network, Item, response, failure, ErrorKind, DnsClient, send}
use nu_plugin_dns.Serde.Util.{Chrono}
use nu_plugin_dns.Serde.Query.{try_from_value}
use nu_plugin_dns.Serde.Message.{new_message, message_value}

-- What a query gives for one question: a value or an error, as the code keeps them side by side.
abbrev pub Reply : Type 0
Reply = Res LabeledError Value

-- What the command calls of hickory and of the runtime: the request that `ClientHandle::query` makes
-- of a question and the answer that it takes from the stream of responses, with its error as
-- printed; a response's message and its encoding; the order in which `FuturesUnordered` gives back
-- what was collected in it; the text of a socket address; whether `mpsc::channel` makes a channel of so
-- many places and `Vec::with_capacity` a buffer for so many values, or panics, and the bytes that a
-- value takes in it.
pub record Host (H : Hickory) : Type 1 where
  pub network : Network
  pub order : Endian
  pub chrono : Chrono
  pub iteration : Iteration Value
  pub request_for : H.Name → H.DnsClass → H.RecordType → network.Request
  pub first_answer : List (Item network.Response) → Res String network.Response
  pub into_message : network.Response → Wire.Message H
  pub to_bytes : Wire.Message H → Option (List ℕ)
  pub arrange : List Reply → List Reply
  pub show_addr : SocketAddr → String
  pub mpsc_channel : ℕ → Res ⊥ (Unit {0})
  pub with_capacity : ℕ → Res ⊥ (Unit {0})
  pub value_size : ℕ

-- tokio's `Semaphore::MAX_PERMITS`, `usize::MAX >> 3`, on a 64-bit machine
abbrev pub max_permits : ℕ
max_permits = 2 ^ 61 - 1

-- A number of places that `mpsc::channel` refuses.
abbrev pub IsUnfit : ℕ → Type 0
IsUnfit n = (n ≡ 0) ⊎ (max_permits < n)

-- What is documented of it: the first item of the stream is the answer, no item is an error, and
-- what was collected is given back once each; a channel panics without places and with more than
-- `MAX_PERMITS`; a buffer panics only if it takes more than `isize::MAX` bytes.
pub record IsLawful {H : Hickory} (host : Host H) : Type 0 where
  pub first_response :
      (r : host.network.Response) (rest : List (Item host.network.Response))
      → host.first_answer (response r ∷ rest) ≡ ok r
  pub first_failure :
      (e : ErrorKind) (rest : List (Item host.network.Response))
      → (text : String) × (host.first_answer (failure e ∷ rest) ≡ err text)
  pub first_none : (text : String) × (host.first_answer [] ≡ err text)
  pub arrange-Perm : (rs : List Reply) → Perm (host.arrange rs) rs
  pub mpsc_channel-ok : (n : ℕ) → 0 < n → n ≤ max_permits → host.mpsc_channel n ≡ ok tt
  pub mpsc_channel-panic : (n : ℕ) → IsUnfit n → (m : String) × (host.mpsc_channel n ≡ panic m)
  pub with_capacity-ok : (n : ℕ) → n * host.value_size < 2 ^ 63 → host.with_capacity n ≡ ok tt

-- A panic goes through; a value and an error are a reply.
abbrev pub reply_of : Reply → Res ⊥ Reply
reply_of (ok v) = ok (ok v)
reply_of (err e) = ok (err e)
reply_of (panic m) = panic m

module _ {H : Hickory} (N : NuProtocol) (host : Host H) (config : Config H) where
  timed_out : LabeledError
  timed_out =
      labeled "timed out" ("request to " <> host.show_addr config.server.item <> " timed out")
        config.server.span

  -- The request is sent when the future is made; then either the answer or the timeout is first.
  unfoldable pub await_answer :
      Bool → Span → List (Item host.network.Response) → Res LabeledError host.network.Response
  unfolding timed_out
  await_answer late span items =
      if late
      then err timed_out
      else map_err (λ e. labeled "DNS error" ("Error in DNS response: " <> e) span)
          (host.first_answer items)

  -- The future of one question. `late` says whether its timeout comes first.
  unfoldable pub exchange : DnsClient host.network → Span → Bool → Query H → Reply
  unfolding await_answer
  exchange client in_span late q = do
    items ← send host.network client (host.request_for q.name q.query_class q.query_type)
    resp ← await_answer late in_span items
    (msg, bytes) ← new_message host.to_bytes (host.into_message resp)
    message_value config host.chrono host.iteration msg bytes

  -- One question after the other; `late` says which of them time out.
  unfoldable pub ask :
      DnsClient host.network → Span → (ℕ → Bool) → ℕ → List (Query H) → Res ⊥ (List Reply)
  ask client in_span late i [] = ok []
  ask client in_span late i (q ∷ qs) = reply_of (exchange client in_span (late i) q) >>= λ r.
      ask client in_span late (suc i) qs >>= λ rs. ok (r ∷ rs)

  unfoldable pub answer_all :
      DnsClient host.network
      → Span
      → (ℕ → Bool)
      → Res LabeledError (List (Query H))
      → Res ⊥ (List Reply)
  answer_all client in_span late (ok qs) = map_ok host.arrange (ask client in_span late 0 qs)
  answer_all client in_span late (err e) = ok (ok (Value.error e in_span) ∷ [])
  answer_all client in_span late (panic m) = panic m

  -- `DnsQuery::query`, whose only failure is a panic.
  unfoldable pub query : Value → DnsClient host.network → (ℕ → Bool) → Res ⊥ (List Reply)
  unfolding answer_all
  query input client late =
      answer_all client (span_of input) late (try_from_value H N host.order config input)
