-- ===== src/Client/Laws.antt =====
-- Which clients `DnsClient::new` of src/dns/client.rs makes, and that it does not panic.
use nu_plugin_dns.Prelude.{String, true, List, Option, none, some, length}
use nu_plugin_dns.Prelude.{ok, err, panic, ◌>>=◌}
use nu_plugin_dns.Prelude.{◌≡◌, ◌≢◌, refl, arith}
use nu_plugin_dns.Prelude.Outcome.{Res}
use nu_plugin_dns.Nu.{Value, LabeledError, Span, Spanned}
use nu_plugin_dns.Nu.Protocol.{NuProtocol}
use nu_plugin_dns.Constants.{Protocol}
use nu_plugin_dns.Hickory.{Hickory}
use nu_plugin_dns.Config.{Config, DnssecMode, SocketAddr}
use nu_plugin_dns.Config.Settings.{System, needs_tls}
use nu_plugin_dns.Config.FromValues.{from_values}
use nu_plugin_dns.Config.Laws.{IsPlain, from_values-dns_name}
use nu_plugin_dns.Client.{Endpoint, Network, DnsClient, make_clients, connect_by, new, unwrap_name}

abbrev pub IsSomeOf : {A : Type 0} → Option A → Type 0
IsSomeOf none = ⊥
IsSomeOf (some _) = Unit

-- hickory's connections may fail, and do not panic.
pub record NeverPanics (W : Network) : Type 0 where
  pub connect_async_ne : (e : Endpoint) (m : String) → W.connect_async e ≢ panic m
  pub connect_dnssec_ne : (e : Endpoint) (m : String) → W.connect_dnssec e ≢ panic m

module _ (W : Network) where
  -- The clients that each mode calls for, and a task for each.
  abbrev pub IsFor : DnssecMode → DnsClient W → List W.Background → Type 0
  IsFor DnssecMode.none c bg = IsSomeOf c.async_client × (c.dnssec_client ≡ none) × (length bg ≡ 1)
  IsFor DnssecMode.strict c bg =
      (c.async_client ≡ none) × IsSomeOf c.dnssec_client × (length bg ≡ 1)
  IsFor DnssecMode.opportunistic c bg =
      IsSomeOf c.async_client × IsSomeOf c.dnssec_client × (length bg ≡ 2)

  make_clients-IsFor :
      (mode : DnssecMode) (conn : Res LabeledError Endpoint) {c : DnsClient W}
      {bg : List W.Background}
      → make_clients W mode conn ≡ ok (c, bg)
      → IsFor mode c bg
  unfolding make_clients
  make_clients-IsFor DnssecMode.none (ok point) e = ground arith
  make_clients-IsFor DnssecMode.strict (ok point) e = ground arith
  make_clients-IsFor DnssecMode.opportunistic (ok point) e = ground arith
  make_clients-IsFor DnssecMode.none _ e = cc
  make_clients-IsFor DnssecMode.strict _ e = cc
  make_clients-IsFor DnssecMode.opportunistic _ e = cc

  make_clients-ne-panic :
      NeverPanics W
      → (mode : DnssecMode) (conn : Res LabeledError Endpoint) (m : String)
      → ((n : String) → conn ≢ panic n)
      → make_clients W mode conn ≢ panic m
  unfolding make_clients
  make_clients-ne-panic quiet DnssecMode.none (ok point) m h e =
      ground (arith, quiet.connect_async_ne point m)
  make_clients-ne-panic quiet DnssecMode.strict (ok point) m h e =
      ground (arith, quiet.connect_dnssec_ne point m)
  make_clients-ne-panic quiet DnssecMode.opportunistic (ok point) m h e =
      ground (arith, quiet.connect_async_ne point m, quiet.connect_dnssec_ne point m)
  make_clients-ne-panic quiet DnssecMode.none (err x) m h e = cc
  make_clients-ne-panic quiet DnssecMode.strict (err x) m h e = cc
  make_clients-ne-panic quiet DnssecMode.opportunistic (err x) m h e = cc
  make_clients-ne-panic quiet mode (panic n) m h e = h n refl

  connect_by-IsFor :
      (p : Protocol) (mode : DnssecMode) (addr : SocketAddr) (name : Option (Spanned String))
      (span : Span) {c : DnsClient W} {bg : List W.Background}
      → connect_by W p mode addr name span ≡ ok (c, bg)
      → (p ≢ Protocol.other) × IsFor mode c bg
  unfolding connect_by
  connect_by-IsFor Protocol.other mode addr name span e = cc
  connect_by-IsFor Protocol.udp mode addr name span e = (λ q. cc, make_clients-IsFor mode _ e)
  connect_by-IsFor Protocol.tcp mode addr name span e = (λ q. cc, make_clients-IsFor mode _ e)
  connect_by-IsFor Protocol.tls mode addr name span e = (λ q. cc, make_clients-IsFor mode _ e)
  connect_by-IsFor Protocol.https mode addr name span e = (λ q. cc, make_clients-IsFor mode _ e)
  connect_by-IsFor Protocol.quic mode addr name span e = (λ q. cc, make_clients-IsFor mode _ e)

  -- A client is made only for a protocol that the code knows, and it has what the mode calls for:
  -- with mode `none` the plain client alone, with `strict` the validating client alone, else both;
  -- the join set holds one task for each.
  pub new-IsFor :
      {H : Hickory} (config : Config H) {c : DnsClient W} {bg : List W.Background}
      → new W config ≡ ok (c, bg)
      → (config.protocol.item ≢ Protocol.other) × IsFor config.dnssec_mode.item c bg
  new-IsFor config e =
      unfold new in connect_by-IsFor config.protocol.item config.dnssec_mode.item _ _ _ e

  name-ne-panic :
      (f : String → Endpoint) {name : Option (Spanned String)} (m : String)
      → ((n : Spanned String) × (name ≡ some n))
      → (unwrap_name name >>= λ t. ok (f t)) ≢ panic m
  unfolding unwrap_name
  name-ne-panic f m (n, e) p = ground arith

  connect_by-ne-panic :
      NeverPanics W
      → (p : Protocol) (mode : DnssecMode) (addr : SocketAddr) (name : Option (Spanned String))
        (span : Span) (m : String)
      → (needs_tls p ≡ true → (n : Spanned String) × (name ≡ some n))
      → connect_by W p mode addr name span ≢ panic m
  unfolding connect_by needs_tls
  connect_by-ne-panic quiet Protocol.other mode addr name span m h e = cc
  connect_by-ne-panic quiet Protocol.udp mode addr name span m h e =
      make_clients-ne-panic quiet mode _ m (λ n p. cc) e
  connect_by-ne-panic quiet Protocol.tcp mode addr name span m h e =
      make_clients-ne-panic quiet mode _ m (λ n p. cc) e
  connect_by-ne-panic quiet Protocol.tls mode addr name span m h e =
      make_clients-ne-panic quiet mode _ m (λ n. name-ne-panic _ n (h refl)) e
  connect_by-ne-panic quiet Protocol.https mode addr name span m h e =
      make_clients-ne-panic quiet mode _ m (λ n. name-ne-panic _ n (h refl)) e
  connect_by-ne-panic quiet Protocol.quic mode addr name span m h e =
      make_clients-ne-panic quiet mode _ m (λ n. name-ne-panic _ n (h refl)) e

  -- Making a client from a configuration that `from_values` gave never panics, if hickory's
  -- connections do not and the machine's own name servers are reached without TLS: no
  -- certificate's name is missing where one is unwrapped.
  pub new-from_values :
      {H : Hickory} (N : NuProtocol) (sys : System) {S : Type 0}
      (get_value : S → String → Option Value × S) (s₀ : S) {config : Config H}
      → NeverPanics W
      → IsPlain sys
      → from_values H N sys get_value s₀ ≡ ok config
      → (m : String) → new W config ≢ panic m
  unfolding new
  new-from_values {H} N sys get_value s₀ {config} quiet plain e m =
      connect_by-ne-panic quiet config.protocol.item _ _ _ _ m
        (from_values-dns_name H N sys get_value s₀ plain e)
