-- ===== src/Config/Laws/Names.antt =====
-- When `Config::from_values` of src/dns/config.rs takes a certificate's name.
use nu_plugin_dns.Prelude.{String, Bool, true, false, Option, none, some, ok, map_ok-eq-ok}
use nu_plugin_dns.Prelude.{◌≡◌, refl, sym, ap, ok-injective}
use nu_plugin_dns.Nu.{Value, Span, Spanned}
use nu_plugin_dns.Nu.Protocol.{NuProtocol}
use nu_plugin_dns.Constants.{Protocol}
use nu_plugin_dns.Constants.Flags
use nu_plugin_dns.Hickory.{Hickory}
use nu_plugin_dns.Config.{Config}
use nu_plugin_dns.Config.Settings.{
  System, needs_dns_name, protocol_setting, dns_name_setting, check_dns_name,
}
use nu_plugin_dns.Config.Answers.{answers_of}
use nu_plugin_dns.Config.Laws.Server.{settings, settled}

abbrev pub is_given : {A : Type 0} → Option A → Bool
is_given none = false
is_given (some _) = true

module _ (H : Hickory) (N : NuProtocol) where
  -- The two guards on the name, one behind the other.
  guarded :
      (needed : Bool) (value : Option Value) (span : Span) (name : Option (Spanned String))
      → dns_name_setting H N needed value ≡ ok name
      → check_dns_name H N needed name span ≡ ok tt
      → (is_given name ≡ needed) × (is_given value ≡ needed)
  unfolding dns_name_setting check_dns_name
  guarded true none span none e check = cc
  guarded true none span (some _) e check = cc
  guarded false none span name e check = (ap is_given (sym (ok-injective e)), refl)
  guarded true (some val) span name e check =
      let (t, _, same) = map_ok-eq-ok _ _ e in (ap is_given (sym same), refl)
  guarded false (some val) span name e check = cc

  -- A configuration has a certificate's name exactly if the protocol that was asked for is TLS,
  -- HTTPS or QUIC, and exactly if a name was given: the name and such a protocol come together,
  -- whatever the server's protocol turns out to be.
  pub from_values-is_given :
      (sys : System) (f : String → Option Value) {cfg : Config H}
      → settings H N sys f ≡ ok cfg
      → (asked : Option (Spanned Protocol)) × (protocol_setting H N (f Flags.protocol) ≡ ok asked)
        × (is_given cfg.dns_name ≡ needs_dns_name asked)
        × (is_given (f Flags.dns_name) ≡ needs_dns_name asked)
  unfolding answers_of
  from_values-is_given sys f {cfg} e =
      let s = settled H N sys f e in
      let (has, was) =
        guarded (needs_dns_name s.asked) (f Flags.dns_name) cfg.protocol.span cfg.dns_name
          s.dns_name_ok s.check_ok in
      (s.asked, s.protocol_ok, has, was)
