-- ===== src/Config/Answers.antt =====
-- `Config::from_values` as a function of the nine answers that its closure gives, and what the
-- settings of a successful run are.
use nu_plugin_dns.Prelude.{String, Option, ok, ◌>>=◌, >>=-eq-ok, ok-injective, ◌≡◌, refl}
use mathlib.Core.Path.{subst}
use nu_plugin_dns.Prelude.Outcome.{Res}
use nu_plugin_dns.Nu.{Value, LabeledError, Spanned}
use nu_plugin_dns.Nu.Protocol.{NuProtocol}
use nu_plugin_dns.Constants.{Protocol}
use nu_plugin_dns.Constants.Flags
use nu_plugin_dns.Hickory.{Hickory}
use nu_plugin_dns.Config.{Config}
use nu_plugin_dns.Config.Settings.{
  System, needs_dns_name, protocol_setting, dns_name_setting, server_setting, check_dns_name,
  types_setting, class_setting, code_setting, dnssec_setting, tasks_setting, timeout_setting,
}
use nu_plugin_dns.Config.FromValues.{from_values}

pub record Answers : Type 0 where
  pub protocol : Option Value
  pub dns_name : Option Value
  pub server : Option Value
  pub types : Option Value
  pub class : Option Value
  pub code : Option Value
  pub dnssec : Option Value
  pub tasks : Option Value
  pub timeout : Option Value

-- The answers of a closure whose state changes with each call.
unfoldable pub answers : {S : Type 0} → (S → String → Option Value × S) → S → Answers
answers get_value s₀ =
    let (protocol, s₁) = get_value s₀ Flags.protocol in
    let (dns_name, s₂) = get_value s₁ Flags.dns_name in
    let (server, s₃) = get_value s₂ Flags.server in
    let (types, s₄) = get_value s₃ Flags.type in
    let (class, s₅) = get_value s₄ Flags.class in
    let (code, s₆) = get_value s₅ Flags.code in
    let (dnssec, s₇) = get_value s₆ Flags.dnssec in
    let (tasks, s₈) = get_value s₇ Flags.tasks in
    let (timeout, s₉) = get_value s₈ Flags.timeout in
    record {
      protocol = protocol;
      dns_name = dns_name;
      server = server;
      types = types;
      class = class;
      code = code;
      dnssec = dnssec;
      tasks = tasks;
      timeout = timeout;
    }

-- The answers of a function of the flag's name.
unfoldable pub answers_of : (String → Option Value) → Answers
answers_of f = record {
  protocol = f Flags.protocol;
  dns_name = f Flags.dns_name;
  server = f Flags.server;
  types = f Flags.type;
  class = f Flags.class;
  code = f Flags.code;
  dnssec = f Flags.dnssec;
  tasks = f Flags.tasks;
  timeout = f Flags.timeout;
}

module _ (H : Hickory) (N : NuProtocol) (sys : System) where
  unfoldable pub settle : Answers → Res LabeledError (Config H)
  settle a = do
    protocol ← protocol_setting H N a.protocol
    dns_name ← dns_name_setting H N (needs_dns_name protocol) a.dns_name
    (addr, final) ← server_setting H N sys protocol a.server
    _ ← check_dns_name H N (needs_dns_name protocol) dns_name final.span
    qtypes ← types_setting H N a.types
    class ← class_setting H N a.class
    dnssec_mode ← dnssec_setting H N a.dnssec
    tasks ← tasks_setting H N sys a.tasks
    timeout ← timeout_setting H N sys a.timeout
    ok (record {
      protocol = final;
      server = addr;
      qtypes = qtypes;
      class = class;
      code = code_setting H N a.code;
      dnssec_mode = dnssec_mode;
      dns_name = dns_name;
      tasks = tasks;
      timeout = timeout;
    })

  pub from_values-settle :
      {S : Type 0} (get_value : S → String → Option Value × S) (s₀ : S)
      → from_values H N sys get_value s₀ ≡ settle (answers get_value s₀)
  unfolding from_values settle answers
  from_values-settle get_value s₀ = refl

  pub from_values-answers_of :
      {S : Type 0} (f : String → Option Value) (s₀ : S)
      → from_values H N sys (λ s name. (f name, s)) s₀ ≡ settle (answers_of f)
  unfolding from_values settle answers_of
  from_values-answers_of f s₀ = refl

  -- What each setting of a configuration comes from.
  pub record IsSettled (a : Answers) (cfg : Config H) : Type 0 where
    pub asked : Option (Spanned Protocol)
    pub protocol_ok : protocol_setting H N a.protocol ≡ ok asked
    pub dns_name_ok : dns_name_setting H N (needs_dns_name asked) a.dns_name ≡ ok cfg.dns_name
    pub server_ok : server_setting H N sys asked a.server ≡ ok (cfg.server, cfg.protocol)
    pub check_ok : check_dns_name H N (needs_dns_name asked) cfg.dns_name cfg.protocol.span ≡ ok tt
    pub types_ok : types_setting H N a.types ≡ ok cfg.qtypes
    pub class_ok : class_setting H N a.class ≡ ok cfg.class
    pub code_ok : cfg.code ≡ code_setting H N a.code
    pub dnssec_ok : dnssec_setting H N a.dnssec ≡ ok cfg.dnssec_mode
    pub tasks_ok : tasks_setting H N sys a.tasks ≡ ok cfg.tasks
    pub timeout_ok : timeout_setting H N sys a.timeout ≡ ok cfg.timeout

  pub settle-IsSettled : (a : Answers) {cfg : Config H} → settle a ≡ ok cfg → IsSettled a cfg
  unfolding settle
  settle-IsSettled a e =
      let (asked, e₁, r₁) = >>=-eq-ok (protocol_setting H N a.protocol) _ e in
      let (name, e₂, r₂) =
        >>=-eq-ok (dns_name_setting H N (needs_dns_name asked) a.dns_name) _ r₁ in
      let (srv, e₃, r₃) = >>=-eq-ok (server_setting H N sys asked a.server) _ r₂ in
      let (u, e₄, r₄) =
        >>=-eq-ok (check_dns_name H N (needs_dns_name asked) name srv.1.span) _ r₃ in
      let (types, e₅, r₅) = >>=-eq-ok (types_setting H N a.types) _ r₄ in
      let (class, e₆, r₆) = >>=-eq-ok (class_setting H N a.class) _ r₅ in
      let (mode, e₇, r₇) = >>=-eq-ok (dnssec_setting H N a.dnssec) _ r₆ in
      let (tasks, e₈, r₈) = >>=-eq-ok (tasks_setting H N sys a.tasks) _ r₇ in
      let (timeout, e₉, r₉) = >>=-eq-ok (timeout_setting H N sys a.timeout) _ r₈ in
      subst (IsSettled a) (ok-injective r₉) (record {
        asked = asked;
        protocol_ok = e₁;
        dns_name_ok = e₂;
        server_ok = e₃;
        check_ok = e₄;
        types_ok = e₅;
        class_ok = e₆;
        code_ok = refl;
        dnssec_ok = e₇;
        tasks_ok = e₈;
        timeout_ok = e₉;
      })

  -- Settings that come from the answers are what is settled on.
  pub settle_of : (a : Answers) {cfg : Config H} → IsSettled a cfg → settle a ≡ ok cfg
  unfolding settle
  settle_of a s = rw (
    s.protocol_ok,
    s.dns_name_ok,
    s.server_ok,
    s.check_ok,
    s.types_ok,
    s.class_ok,
    s.dnssec_ok,
    s.tasks_ok,
    s.timeout_ok,
    ← s.code_ok,
  )
