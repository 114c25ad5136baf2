-- ===== src/Config/Laws/Server.antt =====
-- The server that `Config::from_values` of src/dns/config.rs settles on.
use nu_plugin_dns.Prelude.{ℕ, String, List, ◌∷◌, Option, none, some, ok, ◌⊎◌, inl, inr}
use nu_plugin_dns.Prelude.Outcome.{Res}
use mathlib.Core.Path.{subst}
use nu_plugin_dns.Serde.Parse.{protocol_try_from}
use nu_plugin_dns.Prelude.{
  if◌then◌else◌, str_eq, Bool, true, false, err, panic, map_err, Option-cases, map_ok-eq-ok,
  ok-injective, ◌≡◌, refl, sym, ap, ◌∙◌, arith,
}
use nu_plugin_dns.Nu.{Value, LabeledError, Span, Spanned, spanned}
use nu_plugin_dns.Nu.Protocol.{NuProtocol}
use nu_plugin_dns.Constants.{Protocol, default_port}
use nu_plugin_dns.Constants.Flags
use nu_plugin_dns.Hickory.{Hickory}
use nu_plugin_dns.Config.{Config, SocketAddr}
use nu_plugin_dns.Config.Settings.{
  dns_name_setting, NameServer, System, server_setting, server_addr, or_default, protocol_setting,
}
use nu_plugin_dns.Config.FromValues.{from_values}
use nu_plugin_dns.Config.Answers.{answers_of, from_values-answers_of, IsSettled, settle-IsSettled}

-- The ports of DNS, DNS over TLS and over QUIC, and DNS over HTTPS.
abbrev pub registered_port : Protocol → ℕ
registered_port Protocol.tls = 853
registered_port Protocol.quic = 853
registered_port Protocol.https = 443
registered_port _ = 53

-- A source of values with another value of one flag.
abbrev pub with_flag : String → Option Value → (String → Option Value) → String → Option Value
with_flag flag value f name = if str_eq name flag then value else f name

map_err-eq-ok : {E F A : Type 0} (f : E → F) (m : Res E A) {a : A} → map_err f m ≡ ok a → m ≡ ok a
map_err-eq-ok f (ok a) e = ap ok (ok-injective e)
map_err-eq-ok f (err x) e = cc
map_err-eq-ok f (panic s) e = cc

module _ (H : Hickory) (N : NuProtocol) (sys : System) where
  -- The settings of a function from flags to values.
  abbrev pub settings : (String → Option Value) → Res LabeledError (Config H)
  settings f = from_values H N sys (λ s name. (f name, s)) tt

  pub settled :
      (f : String → Option Value) {cfg : Config H}
      → settings f ≡ ok cfg
      → IsSettled H N sys (answers_of f) cfg
  settled f e =
      settle-IsSettled H N sys (answers_of f) (rw (from_values-answers_of H N sys f tt) at e)

  server_at :
      (f : String → Option Value) {cfg : Config H}
      → settings f ≡ ok cfg
      → (asked : Option (Spanned Protocol)) × (protocol_setting H N (f Flags.protocol) ≡ ok asked)
        × (server_setting H N sys asked (f Flags.server) ≡ ok (cfg.server, cfg.protocol))
  unfolding answers_of
  server_at f e = let s = settled f e in (s.asked, s.protocol_ok, s.server_ok)

  -- The address that a text stands for: it names the port, or the port is the protocol's.
  abbrev pub IsAddressOf : String → SocketAddr → Protocol → Type 0
  IsAddressOf text addr protocol =
      (sys.parse_addr text ≡ some addr)
      ⊎ ((sys.parse_addr text ≡ none)
          × (sys.parse_ip text ≡ ok addr.ip)
          × (addr.port ≡ registered_port protocol))

  -- The protocol that a value asks for.
  abbrev pub IsProtocolOf : Option Value → Protocol → Type 0
  IsProtocolOf value protocol =
      ((value ≡ none) × (protocol ≡ Protocol.udp))
      ⊎ ((v : Value) × (value ≡ some v) × (protocol_try_from N v ≡ ok protocol))

  default_port_lem : (p : Protocol) → default_port p ≡ registered_port p
  unfolding default_port
  default_port_lem Protocol.udp = refl
  default_port_lem Protocol.tcp = refl
  default_port_lem Protocol.tls = refl
  default_port_lem Protocol.https = refl
  default_port_lem Protocol.quic = refl
  default_port_lem Protocol.other = refl

  server_addr-IsAddressOf :
      (protocol : Protocol) (text : String) (span : Span) {addr : SocketAddr}
      → server_addr H N sys protocol text span ≡ ok addr
      → IsAddressOf text addr protocol
  unfolding server_addr
  server_addr-IsAddressOf protocol text span e = elim (Option-cases (sys.parse_addr text)) [
    | inr (addr, found) ↦ inl (found ∙ ap some (ok-injective (rw (found, server_addr) at e)))
    | inl bare ↦
        let (ip, parsed, same) =
          map_ok-eq-ok _ (sys.parse_ip text) (map_err-eq-ok _ _ (rw (bare, server_addr) at e)) in
        inr (
          bare,
          parsed ∙ ap (λ a. ok a.ip) same,
          ap (λ a. a.port) (sym same) ∙ default_port_lem protocol,
        )
  ]

  or_default-IsProtocolOf :
      (value : Option Value) {asked : Option (Spanned Protocol)}
      → protocol_setting H N value ≡ ok asked
      → IsProtocolOf value (or_default asked (spanned Protocol.udp Span.unknown)).item
  unfolding protocol_setting
  or_default-IsProtocolOf none e = inl (
    refl,
    ap (λ a. (or_default a (spanned Protocol.udp Span.unknown)).item) (sym (ok-injective e)),
  )
  or_default-IsProtocolOf (some v) e =
      let (p, parsed, same) = map_ok-eq-ok _ (protocol_try_from N v) e in
      inr (
        v,
        refl,
        parsed ∙ ap (λ a. ok (or_default a (spanned Protocol.udp Span.unknown)).item) same,
      )

  given_server_lem :
      (v : Value) (asked : Option (Spanned Protocol)) {r : Spanned SocketAddr × Spanned Protocol}
      → server_setting H N sys asked (some v) ≡ ok r
      → (text : String) × (span : Span) × (v ≡ Value.string text span)
        × (r.0.span ≡ span)
        × IsAddressOf text r.0.item r.1.item
        × (r.1 ≡ or_default asked (spanned Protocol.udp Span.unknown))
  unfolding server_setting
  given_server_lem (Value.string text span) asked {r} e =
      let proto = or_default asked (spanned Protocol.udp Span.unknown) in
      let (addr, found, same) = map_ok-eq-ok _ _ e in
      (
        text,
        span,
        refl,
        ap (λ r. r.0.span) (sym same),
        subst (λ r. IsAddressOf text r.0.item r.1.item) same
            (server_addr-IsAddressOf proto.item text span found),
        ap (λ r. r.1) (sym same),
      )
  given_server_lem _ asked e = absurd (ground arith)

  -- A server that is given is a text: a socket address, which is then the server's, or an address
  -- without a port, which then has port 53 for UDP and TCP, 853 for TLS and QUIC and 443 for HTTPS.
  -- The protocol is the one asked for, UDP if none is; any other value gives no configuration.
  pub from_values-given_server :
      (f : String → Option Value) {cfg : Config H} (v : Value)
      → f Flags.server ≡ some v
      → settings f ≡ ok cfg
      → (text : String) × (span : Span) × (v ≡ Value.string text span)
        × (cfg.server.span ≡ span)
        × IsAddressOf text cfg.server.item cfg.protocol.item
        × IsProtocolOf (f Flags.protocol) cfg.protocol.item
  from_values-given_server f v given e =
      let (asked, p, srv) = server_at f e in
      let (text, span, is_text, at, addr, by) = given_server_lem v asked (rw given at srv) in
      (
        text,
        span,
        is_text,
        at,
        addr,
        subst (λ q. IsProtocolOf (f Flags.protocol) q.item) (sym by)
            (or_default-IsProtocolOf (f Flags.protocol) p),
      )

  -- The certificate's name does not depend on whether one is needed.
  dns_name_setting-agree :
      (needed needed' : Bool) (value : Option Value) {name name' : Option (Spanned String)}
      → dns_name_setting H N needed value ≡ ok name
      → dns_name_setting H N needed' value ≡ ok name'
      → name ≡ name'
  unfolding dns_name_setting
  dns_name_setting-agree _ _ none e e' = sym (ok-injective e) ∙ ok-injective e'
  dns_name_setting-agree true true (some v) e e' = ok-injective (sym e ∙ e')
  dns_name_setting-agree false _ (some v) e e' = cc
  dns_name_setting-agree true false (some v) e e' = cc

  -- With no server given and a system that names servers, the protocol that is asked for has no
  -- effect: two sources of values that agree on the other flags, and both give a configuration,
  -- give the same one, whose server and protocol are those of the first of the system's servers.
  pub from_values-protocol_ignored :
      (f : String → Option Value) (asked : Option Value) {cfg cfg' : Config H} (ns : NameServer)
      (rest : List NameServer)
      → sys.name_servers ≡ ns ∷ rest
      → f Flags.server ≡ none
      → settings f ≡ ok cfg
      → settings (with_flag Flags.protocol asked f) ≡ ok cfg'
      → (cfg' ≡ cfg) × (cfg.server.item ≡ ns.socket_addr) × (cfg.protocol.item ≡ ns.protocol)
  unfolding answers_of server_setting
  from_values-protocol_ignored f asked {cfg} {cfg'} ns rest servers absent e e' =
      let s = settled f e in
      let s' = settled (with_flag Flags.protocol asked f) e' in
      let srv = ok-injective (rw (absent, servers) at s.server_ok) in
      let srv' = ok-injective (rw (absent, servers) at s'.server_ok) in
      let both = sym srv' ∙ srv in
      let name = dns_name_setting-agree _ _ (f Flags.dns_name) s'.dns_name_ok s.dns_name_ok in
      let types = ok-injective (sym s'.types_ok ∙ s.types_ok) in
      let class = ok-injective (sym s'.class_ok ∙ s.class_ok) in
      let dnssec = ok-injective (sym s'.dnssec_ok ∙ s.dnssec_ok) in
      let tasks = ok-injective (sym s'.tasks_ok ∙ s.tasks_ok) in
      let timeout = ok-injective (sym s'.timeout_ok ∙ s.timeout_ok) in
      let code = s'.code_ok ∙ sym s.code_ok in
      (
        λ i. record {
          protocol = (both i).1;
          server = (both i).0;
          qtypes = types i;
          class = class i;
          code = code i;
          dnssec_mode = dnssec i;
          dns_name = name i;
          tasks = tasks i;
          timeout = timeout i;
        },
        ap (λ r. r.0.item) (sym srv),
        ap (λ r. r.1.item) (sym srv),
      )
