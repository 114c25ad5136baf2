-- ===== src/Config/Laws/Quiet.antt =====
-- The panics that `Config::from_values` of src/dns/config.rs can pass on.
use nu_plugin_dns.Prelude.{String, Option, none, some, Bool, true, false, pos, negsuc}
use nu_plugin_dns.Prelude.{
  IsQuiet, ok-IsQuiet, >>=-IsQuiet, map_err-IsQuiet, map_ok-IsQuiet, collect_map-IsQuiet,
}
use nu_plugin_dns.Prelude.{Option-cases, inl, inr, arith}
use nu_plugin_dns.Nu.{Value, Span, of_items, Spanned}
use nu_plugin_dns.Nu.Protocol.{NuProtocol}
use nu_plugin_dns.Constants.{Protocol}
use nu_plugin_dns.Hickory.{Hickory}
use nu_plugin_dns.Config.Settings.{
  System, needs_dns_name, protocol_setting, dns_name_setting, server_setting, check_dns_name,
  types_setting, class_setting, dnssec_setting, tasks_setting, timeout_setting, server_addr,
  spanned_type,
}
use nu_plugin_dns.Config.FromValues.{from_values}
use nu_plugin_dns.Config.Answers.{Answers, answers, settle, from_values-settle}
use nu_plugin_dns.Serde.Parse.{protocol_try_from, mode_try_from}
use nu_plugin_dns.Serde.Parse.Laws.{rtype_try_from-IsQuiet, class_try_from-IsQuiet}
use nu_plugin_dns.Serde.Query.Laws.Quiet.{HasQuietParsers}

-- The conversions and parsers that only the settings use fail by an error, not by a panic.
pub record HasQuietSettings (N : NuProtocol) (sys : System) : Type 0 where
  pub into_string_ne : (v : Value) → IsQuiet (N.into_string v)
  pub parse_ip_ne : (t : String) → IsQuiet (sys.parse_ip t)

module _ (H : Hickory) (N : NuProtocol) (sys : System) (parsers : HasQuietParsers H N)
    (quiet : HasQuietSettings N sys) where
  protocol_try_from-IsQuiet : (v : Value) → IsQuiet (protocol_try_from N v)
  unfolding protocol_try_from
  protocol_try_from-IsQuiet (Value.string val span) = λ s p. ground arith
  protocol_try_from-IsQuiet _ = λ s p. cc

  mode_try_from-IsQuiet : (v : Value) → IsQuiet (mode_try_from N v)
  unfolding mode_try_from
  mode_try_from-IsQuiet (Value.string val span) = λ s p. ground arith
  mode_try_from-IsQuiet _ = λ s p. cc

  protocol_setting-IsQuiet : (v : Option Value) → IsQuiet (protocol_setting H N v)
  unfolding protocol_setting
  protocol_setting-IsQuiet none = λ s p. cc
  protocol_setting-IsQuiet (some v) = map_ok-IsQuiet _ _ (protocol_try_from-IsQuiet v)

  dns_name_setting-IsQuiet :
      (needed : Bool) (v : Option Value) → IsQuiet (dns_name_setting H N needed v)
  unfolding dns_name_setting
  dns_name_setting-IsQuiet true none = λ s p. cc
  dns_name_setting-IsQuiet false none = λ s p. cc
  dns_name_setting-IsQuiet false (some v) = λ s p. cc
  dns_name_setting-IsQuiet true (some v) = map_ok-IsQuiet _ _ (quiet.into_string_ne v)

  server_addr-IsQuiet :
      (proto : Protocol) (text : String) (span : Span)
      → IsQuiet (server_addr H N sys proto text span)
  unfolding server_addr
  server_addr-IsQuiet proto text span = elim (Option-cases (sys.parse_addr text)) [
    | inl e ↦
        rw (e, server_addr) (map_err-IsQuiet _ _ (map_ok-IsQuiet _ _ (quiet.parse_ip_ne text)))
    | inr (addr, e) ↦ rw (e, server_addr) (ok-IsQuiet addr)
  ]

  server_setting-IsQuiet :
      (asked : Option (Spanned Protocol)) (v : Option Value)
      → IsQuiet (server_setting H N sys asked v)
  unfolding server_setting
  server_setting-IsQuiet asked none = λ s p. cc
  server_setting-IsQuiet asked (some (Value.string text span)) =
      map_ok-IsQuiet _ _ (server_addr-IsQuiet _ text span)
  server_setting-IsQuiet asked (some _) = λ s p. cc

  check_dns_name-IsQuiet :
      (needed : Bool) (name : Option (Spanned String)) (span : Span)
      → IsQuiet (check_dns_name H N needed name span)
  unfolding check_dns_name
  check_dns_name-IsQuiet true none span = λ s p. cc
  check_dns_name-IsQuiet true (some _) span = λ s p. cc
  check_dns_name-IsQuiet false _ span = λ s p. cc

  spanned_type-IsQuiet : (v : Value) → IsQuiet (spanned_type H N v)
  unfolding spanned_type
  spanned_type-IsQuiet v =
      map_ok-IsQuiet _ _ (rtype_try_from-IsQuiet H N parsers.record_type_from_str_ne v)

  types_setting-IsQuiet : (v : Option Value) → IsQuiet (types_setting H N v)
  unfolding types_setting
  types_setting-IsQuiet none = λ s p. cc
  types_setting-IsQuiet (some (Value.list vals span)) =
      map_ok-IsQuiet _ _
        (collect_map-IsQuiet (spanned_type H N) (of_items vals) spanned_type-IsQuiet)
  types_setting-IsQuiet (some v) = map_ok-IsQuiet _ _ (spanned_type-IsQuiet v)

  class_setting-IsQuiet : (v : Option Value) → IsQuiet (class_setting H N v)
  unfolding class_setting
  class_setting-IsQuiet none = λ s p. cc
  class_setting-IsQuiet (some v) =
      map_ok-IsQuiet _ _ (class_try_from-IsQuiet H N parsers.class_from_str_ne v)

  dnssec_setting-IsQuiet : (v : Option Value) → IsQuiet (dnssec_setting H N v)
  unfolding dnssec_setting
  dnssec_setting-IsQuiet none = λ s p. cc
  dnssec_setting-IsQuiet (some v) = map_ok-IsQuiet _ _ (mode_try_from-IsQuiet v)

  tasks_setting-IsQuiet : (v : Option Value) → IsQuiet (tasks_setting H N sys v)
  unfolding tasks_setting
  tasks_setting-IsQuiet none = λ s p. cc
  tasks_setting-IsQuiet (some (Value.int (pos n) span)) = λ s p. cc
  tasks_setting-IsQuiet (some (Value.int (negsuc n) span)) = λ s p. cc
  tasks_setting-IsQuiet (some _) = λ s p. cc

  timeout_setting-IsQuiet : (v : Option Value) → IsQuiet (timeout_setting H N sys v)
  unfolding timeout_setting
  timeout_setting-IsQuiet none = λ s p. cc
  timeout_setting-IsQuiet (some (Value.duration (pos n) span)) = λ s p. cc
  timeout_setting-IsQuiet (some (Value.duration (negsuc n) span)) = λ s p. cc
  timeout_setting-IsQuiet (some _) = λ s p. cc

  settle-IsQuiet : (a : Answers) → IsQuiet (settle H N sys a)
  unfolding settle
  settle-IsQuiet a =
      >>=-IsQuiet (protocol_setting H N a.protocol) _ (protocol_setting-IsQuiet a.protocol) λ asked.
        >>=-IsQuiet (dns_name_setting H N (needs_dns_name asked) a.dns_name) _
          (dns_name_setting-IsQuiet _ a.dns_name)
          λ name.
            >>=-IsQuiet (server_setting H N sys asked a.server) _
              (server_setting-IsQuiet asked a.server)
              λ srv.
                >>=-IsQuiet (check_dns_name H N (needs_dns_name asked) name srv.1.span) _
                  (check_dns_name-IsQuiet _ name _)
                  λ u.
                    >>=-IsQuiet (types_setting H N a.types) _ (types_setting-IsQuiet a.types)
                      λ types.
                        >>=-IsQuiet (class_setting H N a.class) _ (class_setting-IsQuiet a.class)
                          λ class.
                            >>=-IsQuiet (dnssec_setting H N a.dnssec) _
                              (dnssec_setting-IsQuiet a.dnssec)
                              λ mode.
                                >>=-IsQuiet (tasks_setting H N sys a.tasks) _
                                  (tasks_setting-IsQuiet a.tasks)
                                  λ tasks.
                                    >>=-IsQuiet (timeout_setting H N sys a.timeout) _
                                      (timeout_setting-IsQuiet a.timeout) λ timeout. ok-IsQuiet _

  pub from_values-IsQuiet :
      {S : Type 0} (get_value : S → String → Option Value × S) (s₀ : S)
      → IsQuiet (from_values H N sys get_value s₀)
  from_values-IsQuiet get_value s₀ =
      rw (from_values-settle H N sys get_value s₀) (settle-IsQuiet (answers get_value s₀))
