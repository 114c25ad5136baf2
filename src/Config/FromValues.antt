-- ===== src/Config/FromValues.antt =====
-- `Config::from_values` and the three ways to call it, of src/dns/config.rs. The closure that gives
-- a flag's value may change what it captured: it is a function with its state.
use nu_plugin_dns.Prelude.{String, [], Option, none, some, Bool, true, if◌then◌else◌}
use nu_plugin_dns.Prelude.{ok, ◌>>=◌, ◌⊎◌, inl, inr}
use nu_plugin_dns.Prelude.Outcome.{Res}
use nu_plugin_dns.Nu.{Value, to_columns, Span, LabeledError, bool_value}
use nu_plugin_dns.Nu.Protocol.{NuProtocol}
use nu_plugin_dns.Constants.Flags
use nu_plugin_dns.Hickory.{Hickory}
use nu_plugin_dns.Config.{Config}
use nu_plugin_dns.Config.Settings.{
  System, needs_dns_name, protocol_setting, dns_name_setting, server_setting, check_dns_name,
  types_setting, class_setting, code_setting, dnssec_setting, tasks_setting, timeout_setting,
}

-- The command line as Nushell evaluated it: whether a switch is given, or the error of asking, and
-- a flag's value.
pub record EvaluatedCall : Type 0 where
  pub has_flag : String → String ⊎ Bool
  pub get_flag_value : String → Option Value

module _ (H : Hickory) (N : NuProtocol) where
  module _ {S : Type 0} (sys : System) (get_value : S → String → Option Value × S) where
    -- The flags are asked for in this order, each once; the first error ends it.
    unfoldable pub from_values : S → Res LabeledError (Config H)
    from_values s₀ = do
      let (asked, s₁) = get_value s₀ Flags.protocol
      protocol ← protocol_setting H N asked
      let needed = needs_dns_name protocol
      let (asked, s₂) = get_value s₁ Flags.dns_name
      dns_name ← dns_name_setting H N needed asked
      let (asked, s₃) = get_value s₂ Flags.server
      (addr, protocol) ← server_setting H N sys protocol asked
      _ ← check_dns_name H N needed dns_name protocol.span
      let (asked, s₄) = get_value s₃ Flags.type
      qtypes ← types_setting H N asked
      let (asked, s₅) = get_value s₄ Flags.class
      class ← class_setting H N asked
      let (asked, s₆) = get_value s₅ Flags.code
      let code = code_setting H N asked
      let (asked, s₇) = get_value s₆ Flags.dnssec
      dnssec_mode ← dnssec_setting H N asked
      let (asked, s₈) = get_value s₇ Flags.tasks
      tasks ← tasks_setting H N sys asked
      let (asked, s₉) = get_value s₈ Flags.timeout
      timeout ← timeout_setting H N sys asked
      ok (record {
        protocol = protocol;
        server = addr;
        qtypes = qtypes;
        class = class;
        code = code;
        dnssec_mode = dnssec_mode;
        dns_name = dns_name;
        tasks = tasks;
        timeout = timeout;
      })

  module _ (sys : System) where
    -- `Config::try_from(value)`: each column is taken out of the record as it is read.
    unfoldable pub try_from_value : Value → Res LabeledError (Config H)
    try_from_value value = N.into_record value >>= from_values sys N.remove

    -- `Config::try_from(call)`
    unfoldable pub try_from_call : EvaluatedCall → Res LabeledError (Config H)
    try_from_call call = from_values sys (λ s name. (call.get_flag_value name, s)) tt

    -- A switch that is given with no value counts as true.
    unfoldable pub call_value : EvaluatedCall → String → Option Value
    call_value call name = elim (call.get_flag_value name) [
      | some val ↦ some val
      | none ↦ elim (call.has_flag name) [
        | inr given ↦ if given then some (bool_value true) else none
        | inl _ ↦ none
      ]
    ]

    -- A value of the command line goes before one of the plugin's configuration.
    unfoldable pub choose : Option Value → Option Value → Option Value
    choose cfg_val (some call_val) = some call_val
    choose cfg_val none = cfg_val

    unfoldable pub nu_value : Option Value → EvaluatedCall → String → Option Value
    unfolding call_value choose
    nu_value plugin_config call name =
        choose
          (N.get_data_by_key
            (elim plugin_config [ none ↦ Value.rec (to_columns []) Span.unknown | some cfg ↦ cfg ])
            name)
          (call_value call name)

    unfoldable pub from_nu : Option Value → EvaluatedCall → Res LabeledError (Config H)
    from_nu plugin_config call =
        from_values sys (λ s name. (nu_value plugin_config call name, s)) tt
