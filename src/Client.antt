-- ===== src/Client.antt =====
-- `DnsClient` of src/dns/client.rs. The connections and the two kinds of client are hickory's: a
-- parameter. A stream of responses is the list of its items.
pub mod Laws
pub mod Sending
use nu_plugin_dns.Prelude.{
  ℕ, ◌*◌, String, ◌<>◌, Bool, true, false, List, [], ◌∷◌, ◌++◌, Option, none, some,
}
use nu_plugin_dns.Prelude.{str_eq, if◌then◌else◌, ok, err, panic, map_err, ◌>>=◌}
use nu_plugin_dns.Prelude.Outcome.{Res}
use nu_plugin_dns.Nu.{Span, Spanned, LabeledError, labeled}
use nu_plugin_dns.Constants.{Protocol}
use nu_plugin_dns.Hickory.{Hickory}
use nu_plugin_dns.Config.{Config, DnssecMode, SocketAddr}

-- A `ProtoErrorKind`, as far as the code tells them apart.
pub data ErrorKind : Type 0 where
  rrsigs_not_present : ErrorKind
  message : String → ErrorKind
  other : String → ErrorKind

-- An item of a stream of type `Result<DnsResponse, ProtoError>`.
pub data Item (R : Type 0) : Type 0 where
  response : R → Item R
  failure : ErrorKind → Item R

-- What a connection is made of: the address, the timeout in seconds, the certificate's name.
pub data Endpoint : Type 0 where
  udp tcp : SocketAddr → ℕ → Endpoint
  tls : SocketAddr → String → ℕ → Endpoint
  https quic : SocketAddr → String → Endpoint

-- hickory's clients, each with the task that drives it; connection errors as printed.
pub record Network : Type 1 where
  pub AsyncClient : Type 0
  pub AsyncDnssecClient : Type 0
  pub Background : Type 0
  pub Request : Type 0
  pub Response : Type 0
  pub connect_async : Endpoint → Res String (AsyncClient × Background)
  pub connect_dnssec : Endpoint → Res String (AsyncDnssecClient × Background)
  pub send_async : AsyncClient → Request → List (Item Response)
  pub send_dnssec : AsyncDnssecClient → Request → List (Item Response)
  pub show_protocol : Protocol → String

pub record DnsClient (W : Network) : Type 0 where
  pub async_client : Option W.AsyncClient
  pub dnssec_client : Option W.AsyncDnssecClient

unfoldable pub is_strict : DnssecMode → Bool
is_strict DnssecMode.strict = true
is_strict _ = false

unfoldable pub is_none : DnssecMode → Bool
is_none DnssecMode.none = true
is_none _ = false

-- A year, in seconds.
abbrev pub client_timeout : ℕ
client_timeout = 60 * 60 * 24 * 365

-- `config.dns_name.as_ref().unwrap()`
unfoldable pub unwrap_name : Option (Spanned String) → Res LabeledError String
unwrap_name none = panic "called `Option::unwrap()` on a `None` value"
unwrap_name (some name) = ok name.item

abbrev connect_err : String → LabeledError
connect_err e = labeled "connection error" ("Error creating client connection: " <> e) Span.unknown

module _ (W : Network) where
  open W use {AsyncClient, AsyncDnssecClient, Background, Request, Response}

  abbrev pub Clients : Type 0
  Clients = Option AsyncClient × Option AsyncDnssecClient × List Background

  -- The two halves of the macro `make_clients`. The connection's expression is evaluated in each.
  unfoldable pub make_async :
      DnssecMode
      → Res LabeledError Endpoint
      → Res LabeledError (Option AsyncClient × List Background)
  unfolding is_strict
  make_async mode conn =
      if is_strict mode
      then ok (none, [])
      else (conn >>= λ e.
          map_err connect_err (W.connect_async e) >>= λ (c, bg). ok (some c, bg ∷ []))

  unfoldable pub make_dnssec :
      DnssecMode
      → Res LabeledError Endpoint
      → Res LabeledError (Option AsyncDnssecClient × List Background)
  unfolding is_none
  make_dnssec mode conn =
      if is_none mode
      then ok (none, [])
      else (conn >>= λ e.
          map_err connect_err (W.connect_dnssec e) >>= λ (c, bg). ok (some c, bg ∷ []))

  unfoldable pub make_clients :
      DnssecMode → Res LabeledError Endpoint → Res LabeledError (DnsClient W × List Background)
  unfolding make_async make_dnssec
  make_clients mode conn = do
    (async_client, spawned) ← make_async mode conn
    (dnssec_client, more) ← make_dnssec mode conn
    ok (record { async_client = async_client; dnssec_client = dnssec_client }, spawned ++ more)

  -- The match of `DnsClient::new` on the protocol.
  unfoldable pub connect_by :
      Protocol
      → DnssecMode
      → SocketAddr
      → Option (Spanned String)
      → Span
      → Res LabeledError (DnsClient W × List Background)
  connect_by Protocol.udp mode addr name span =
      make_clients mode (ok (Endpoint.udp addr client_timeout))
  connect_by Protocol.tcp mode addr name span =
      make_clients mode (ok (Endpoint.tcp addr client_timeout))
  connect_by Protocol.tls mode addr name span =
      make_clients mode (unwrap_name name >>= λ n. ok (Endpoint.tls addr n client_timeout))
  connect_by Protocol.https mode addr name span =
      make_clients mode (unwrap_name name >>= λ n. ok (Endpoint.https addr n))
  connect_by Protocol.quic mode addr name span =
      make_clients mode (unwrap_name name >>= λ n. ok (Endpoint.quic addr n))
  connect_by Protocol.other mode addr name span =
      err (labeled "unknown protocol" ("Unknown protocol: " <> W.show_protocol Protocol.other) span)

  -- `DnsClient::new`: the client, and the tasks of its join set.
  unfoldable pub new : {H : Hickory} → Config H → Res LabeledError (DnsClient W × List Background)
  unfolding connect_by
  new config =
      connect_by config.protocol.item config.dnssec_mode.item config.server.item config.dns_name
        config.protocol.span

  -- The errors that say that a record is not signed.
  unfoldable pub is_unsigned : Item Response → Bool
  is_unsigned (response _) = false
  is_unsigned (failure rrsigs_not_present) = true
  is_unsigned (failure (message text)) = str_eq text "no results to verify"
  is_unsigned (failure (other _)) = false

  -- `filter(|resp| !is_unsigned(resp)).take(1)`
  unfoldable pub first_signed : List (Item Response) → List (Item Response)
  first_signed [] = []
  first_signed (item ∷ items) = if is_unsigned item then first_signed items else item ∷ []

  -- The match of `DnsHandle::send`.
  unfoldable pub send_by :
      Option AsyncClient
      → Option AsyncDnssecClient
      → Request
      → Res LabeledError (List (Item Response))
  send_by none none request = panic "internal error: entered unreachable code"
  send_by (some async_client) none request = ok (W.send_async async_client request)
  send_by none (some dnssec_client) request = ok (W.send_dnssec dnssec_client request)
  send_by (some async_client) (some dnssec_client) request =
      ok (first_signed (W.send_dnssec dnssec_client request ++ W.send_async async_client request))

  unfoldable pub send : DnsClient W → Request → Res LabeledError (List (Item Response))
  unfolding send_by
  send client request = send_by client.async_client client.dnssec_client request
