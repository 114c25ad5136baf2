-- ===== src/Config/Laws/Tasks.antt =====
-- The number of tasks that `Config::from_values` of src/dns/config.rs settles on.
use nu_plugin_dns.Prelude.{ℕ, pos, negsuc, String, Option, none, some, ok, ◌⊎◌, inl, inr}
use nu_plugin_dns.Prelude.{ok-injective, ◌≡◌, refl, sym, ap, ◌∙◌, arith}
use nu_plugin_dns.Nu.{Value, Span, Spanned, spanned}
use nu_plugin_dns.Nu.Protocol.{NuProtocol}
use nu_plugin_dns.Constants.Flags
use nu_plugin_dns.Hickory.{Hickory}
use nu_plugin_dns.Config.{Config}
use nu_plugin_dns.Config.Settings.{System, tasks_setting}
use nu_plugin_dns.Config.Answers.{answers_of, from_values-answers_of, settle_of}
use nu_plugin_dns.Config.Laws.Server.{settings, settled, with_flag}

-- No value and 8 tasks, or an integer that is not negative, and as many.
abbrev pub AreTasks : Option Value → ℕ → Type 0
AreTasks value tasks =
    ((value ≡ none) × (tasks ≡ 8))
    ⊎ ((n : ℕ) × (span : Span) × (value ≡ some (Value.int (pos n) span)) × (tasks ≡ n))

module _ (H : Hickory) (N : NuProtocol) (sys : System) where
  tasks_lem :
      (value : Option Value) {tasks : Spanned ℕ}
      → tasks_setting H N sys value ≡ ok tasks
      → AreTasks value tasks.item
  unfolding tasks_setting
  tasks_lem none e = inl (refl, ap (λ t. t.item) (sym (ok-injective e)))
  tasks_lem (some (Value.int (pos n) span)) e =
      inr (n, span, refl, ap (λ t. t.item) (sym (ok-injective e)))
  tasks_lem (some (Value.int (negsuc n) span)) e = absurd (ground arith)
  tasks_lem (some _) e = absurd (ground arith)

  -- The number of tasks of a configuration is the integer given if it is not negative, and 8 if none
  -- is given; any other value gives no configuration. Each integer that is not negative, 0 included,
  -- is accepted where the other settings are, and changes none of them.
  pub from_values-tasks :
      (f : String → Option Value) {cfg : Config H} (n : ℕ) (span : Span)
      → settings H N sys f ≡ ok cfg
      → AreTasks (f Flags.tasks) cfg.tasks.item
        × (settings H N sys (with_flag Flags.tasks (some (Value.int (pos n) span)) f)
            ≡ ok (record cfg { tasks = spanned n span }))
  unfolding answers_of tasks_setting
  from_values-tasks f {cfg} n span e =
      let s = settled H N sys f e in
      let g = with_flag Flags.tasks (some (Value.int (pos n) span)) f in
      (
        tasks_lem (f Flags.tasks) s.tasks_ok,
        from_values-answers_of H N sys g tt
            ∙ settle_of H N sys (answers_of g) (record {
              asked = s.asked;
              protocol_ok = s.protocol_ok;
              dns_name_ok = s.dns_name_ok;
              server_ok = s.server_ok;
              check_ok = s.check_ok;
              types_ok = s.types_ok;
              class_ok = s.class_ok;
              code_ok = s.code_ok;
              dnssec_ok = s.dnssec_ok;
              tasks_ok = refl;
              timeout_ok = s.timeout_ok;
            }),
      )
