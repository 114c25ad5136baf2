-- ===== src/Config/Laws.antt =====
-- What `Config::from_values` of src/dns/config.rs settles: names of certificates, protocols, ports,
-- the number of tasks.
pub mod Sources
pub mod Server
pub mod Tasks
pub mod Names
pub mod Quiet
use nu_plugin_dns.Prelude.{
  ℕ, ℤ, pos, String, List, [], ◌∷◌, All, Bool, true, false, Option, none, some,
}
use nu_plugin_dns.Prelude.{
  ok, err, ok-injective, map_ok-eq-ok, Option-cases, Bool-cases, inl, inr, ◌≡◌, ◌≢◌, refl, sym, ap,
  ◌∙◌, arith,
}
use nu_plugin_dns.Prelude.Outcome.{Res}
use nu_plugin_dns.Nu.{Value, Span, span_of, LabeledError, labeled, Spanned, spanned}
use nu_plugin_dns.Nu.Protocol.{NuProtocol}
use nu_plugin_dns.Constants.{Protocol, default_port}
use nu_plugin_dns.Constants.Flags
use nu_plugin_dns.Hickory.{Hickory}
use nu_plugin_dns.Config.{Config, SocketAddr}
use nu_plugin_dns.Config.Settings.{
  NameServer, System, needs_tls, needs_dns_name, or_default, protocol_setting, dns_name_setting,
  server_setting, system_server, check_dns_name, tasks_setting, server_addr,
}
use nu_plugin_dns.Config.FromValues.{from_values}
use nu_plugin_dns.Config.Answers.{
  Answers, answers, answers_of, settle, from_values-settle, from_values-answers_of, IsSettled,
  settle-IsSettled,
}

-- The system's name servers, and hickory's default one, are reached without TLS, as those of
-- /etc/resolv.conf and of hickory's Google default are.
abbrev pub IsPlain : System → Type 0
IsPlain sys =
    All (λ ns. needs_tls ns.protocol ≡ false) sys.name_servers
    × (needs_tls sys.default_server.protocol ≡ false)

needs_tls-udp : needs_tls Protocol.udp ≡ false
unfolding needs_tls
needs_tls-udp = refl

or_default-plain :
    (asked : Option (Spanned Protocol)) (d : Spanned Protocol)
    → needs_dns_name asked ≡ false
    → needs_tls d.item ≡ false
    → needs_tls (or_default asked d).item ≡ false
unfolding needs_dns_name
or_default-plain none d u h = h
or_default-plain (some p) d u h = u

system_server-plain :
    (sys : System) (servers : List NameServer) (asked : Option (Spanned Protocol))
    → All (λ ns. needs_tls ns.protocol ≡ false) servers
    → needs_tls sys.default_server.protocol ≡ false
    → needs_dns_name asked ≡ false
    → needs_tls (system_server sys servers asked).1.item ≡ false
unfolding system_server
system_server-plain sys (ns ∷ _) asked (h, _) d u = h
system_server-plain sys [] asked _ d u = or_default-plain asked _ u d

module _ (H : Hickory) (N : NuProtocol) (sys : System) where
  check_dns_name-some :
      (name : Option (Spanned String)) (span : Span)
      → check_dns_name H N true name span ≡ ok tt
      → (n : Spanned String) × (name ≡ some n)
  unfolding check_dns_name
  check_dns_name-some none span e = cc
  check_dns_name-some (some n) span e = (n, refl)

  -- Without TLS asked for, the server that is settled on is reached without TLS.
  server_setting-plain :
      (asked : Option (Spanned Protocol)) (value : Option Value) {addr : Spanned SocketAddr}
      {protocol : Spanned Protocol}
      → IsPlain sys
      → needs_dns_name asked ≡ false
      → server_setting H N sys asked value ≡ ok (addr, protocol)
      → needs_tls protocol.item ≡ false
  unfolding server_setting needs_dns_name
  server_setting-plain asked none (plain, d) u e =
      ap (λ r. needs_tls r.1.item) (sym (ok-injective e))
      ∙ system_server-plain sys sys.name_servers asked plain d u
  server_setting-plain asked (some (Value.string text span)) (plain, d) u e =
      let (addr, found, same) = map_ok-eq-ok _ _ e in
      ap (λ r. needs_tls r.1.item) (sym same) ∙ or_default-plain asked _ u needs_tls-udp
  server_setting-plain asked (some _) p u e = cc

  dns_name_lem :
      (a : Answers) {cfg : Config H}
      → IsPlain sys
      → IsSettled H N sys a cfg
      → needs_tls cfg.protocol.item ≡ true
      → (name : Spanned String) × (cfg.dns_name ≡ some name)
  dns_name_lem a {cfg} plain s tls = elim (Bool-cases (needs_dns_name s.asked)) [
    | inl needed ↦ check_dns_name-some cfg.dns_name cfg.protocol.span (rw needed at s.check_ok)
    | inr other ↦
        absurd (ground (arith, server_setting-plain s.asked a.server plain other s.server_ok))
  ]

  -- A configuration whose protocol needs a certificate's name has one, if the machine's own name
  -- servers are reached without TLS.
  pub from_values-dns_name :
      {S : Type 0} (get_value : S → String → Option Value × S) (s₀ : S) {cfg : Config H}
      → IsPlain sys
      → from_values H N sys get_value s₀ ≡ ok cfg
      → needs_tls cfg.protocol.item ≡ true
      → (name : Spanned String) × (cfg.dns_name ≡ some name)
  from_values-dns_name get_value s₀ plain e tls =
      let settled = rw (from_values-settle H N sys get_value s₀) at e in
      dns_name_lem (answers get_value s₀) plain (settle-IsSettled H N sys _ settled) tls
