-- ===== src/Command/Signature/Laws.antt =====
-- The flags that src/dns/commands/query.rs declares are all that a configuration is read from.
use nu_plugin_dns.Prelude.{String, All, Option, ◌≡◌, sym, ap, ◌∙◌}
use nu_plugin_dns.Nu.{Value}
use nu_plugin_dns.Nu.Protocol.{NuProtocol}
use nu_plugin_dns.Hickory.{Hickory}
use nu_plugin_dns.Config.Settings.{System}
use nu_plugin_dns.Config.Answers.{answers_of, settle, from_values-answers_of}
use nu_plugin_dns.Config.Laws.Server.{settings}
use nu_plugin_dns.Command.Signature.{Flag, signature}

module _ (H : Hickory) (N : NuProtocol) (sys : System) (f g : String → Option Value) where
  answers_of-agree :
      All (λ (d : Flag). f d.name ≡ g d.name) signature.named → answers_of f ≡ answers_of g
  unfolding answers_of signature
  answers_of-agree
        (server, (protocol, (type, (class, (code, (dnssec, (dns_name, (tasks, (timeout, _))))))))) =
      λ i. record {
        protocol = protocol i;
        dns_name = dns_name i;
        server = server i;
        types = type i;
        class = class i;
        code = code i;
        dnssec = dnssec i;
        tasks = tasks i;
        timeout = timeout i;
      }

  -- The settings depend on the flags that the signature declares, and on nothing else: two sources
  -- of values that agree on the declared flags lead to the same outcome.
  pub settings-signature :
      All (λ (d : Flag). f d.name ≡ g d.name) signature.named
      → settings H N sys f ≡ settings H N sys g
  settings-signature h =
      from_values-answers_of H N sys f tt
      ∙ ap (settle H N sys) (answers_of-agree h)
      ∙ sym (from_values-answers_of H N sys g tt)
