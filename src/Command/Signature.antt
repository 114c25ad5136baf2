-- ===== src/Command/Signature.antt =====
-- What `PluginCommand for DnsQuery` of src/dns/commands/query.rs declares to Nushell.
pub mod Laws
use nu_plugin_dns.Prelude.{ℕ, String, ◌<>◌, List, [], ◌∷◌, Option, none, some, ◌/◌, ◌^◌}
use nu_plugin_dns.Std.Decimal.{show_ℕ}
use nu_plugin_dns.Constants.{default_tasks, default_timeout}
use nu_plugin_dns.Constants.Flags
use nu_plugin_dns.Constants.Commands

-- nu_protocol's `SyntaxShape`, as far as it is used; a switch has no value.
pub data Shape : Type 0 where
  any string int duration switch : Shape

pub record Flag : Type 0 where
  pub name : String
  pub shape : Shape
  pub desc : String
  pub short : Option String

pub record Signature : Type 0 where
  pub name : String
  pub rest_name : String
  pub rest_shape : Shape
  pub rest_desc : String
  pub named : List Flag

abbrev flag : String → Shape → String → Option String → Flag
flag name shape desc short = record { name = name; shape = shape; desc = desc; short = short }

unfoldable pub signature : Signature
unfolding show_ℕ
signature = record {
  name = Commands.query;
  rest_name = Flags.name;
  rest_shape = Shape.any;
  rest_desc = "DNS record name";
  named =
      flag Flags.server Shape.string "Nameserver to query (defaults to system config or 8.8.8.8)"
        (some "s")
      ∷ flag Flags.protocol Shape.string
          "Protocol to use to connect to the nameserver: UDP, TCP. (default: UDP)" (some "p")
      ∷ flag Flags.type Shape.any "Query type" (some "t")
      ∷ flag Flags.class Shape.any "Query class" none
      ∷ flag Flags.code Shape.switch
          "Return code fields with both string and numeric representations" (some "c")
      ∷ flag Flags.dnssec Shape.string
          "Perform DNSSEC validation on records. Choices are: \"none\", \"strict\" (error if record has no RRSIG or does not validate), \"opportunistic\" (validate if RRSIGs present, otherwise no validation; default)"
          (some "d")
      ∷ flag Flags.dns_name Shape.string
          "DNS name of the TLS certificate in use by the nameserver (for TLS and HTTPS only)"
          (some "n")
      ∷ flag Flags.tasks Shape.int
          ("Number of concurrent tasks to execute queries. Please be mindful not to overwhelm your nameserver! Default: "
            <> show_ℕ default_tasks)
          (some "j")
      ∷ flag Flags.timeout Shape.duration
          ("How long a request can take before timing out. Be aware the concurrency level can affect this. Default: "
            <> show_ℕ (default_timeout / 10 ^ 9)
            <> "sec")
          none
      ∷ [];
}

abbrev pub description : String
description = "Perform a DNS query"

abbrev pub search_terms : List String
search_terms = "dns" ∷ "network" ∷ "dig" ∷ []
