-- ===== src/Tests/Command.antt =====
-- Calls of the command of src/dns/commands/query.rs at concrete inputs.
use mathlib.Core.List.{reverse, reverse_perm}
use nu_plugin_dns.Prelude.{ℕ, String, ◌<>◌, List, [], ◌∷◌, some, Bool, false}
use nu_plugin_dns.Prelude.{
  ◌*◌, ◌^◌, ltb, leb, ◌&&◌, if◌then◌else◌, arith, panic, ◌≡◌, inl, inr, ok, err, ◌⊎◌, refl,
  Succeeds,
}
use nu_plugin_dns.Prelude.Outcome.{Res}
use nu_plugin_dns.Nu.{string_value}
use nu_plugin_dns.Std.Bytes.{little}
use nu_plugin_dns.Std.Decimal.{show_ℕ}
use nu_plugin_dns.Config.{Config}
use nu_plugin_dns.Client.{Item, response, failure}
use nu_plugin_dns.Command.Query.{Host, IsLawful, query, IsUnfit, max_permits}
use nu_plugin_dns.Command.Query.Laws.Total.{
  CanBeShown, WasMade, HasOutcome, query-HasOutcome, query-Succeeds,
}
use nu_plugin_dns.Command.Query.Laws.{IsRefused, IsAnswered, query-IsAnswered}
use nu_plugin_dns.Config.Settings.{}
use nu_plugin_dns.Tests.Data.{parsers-HasQuietParsers, hickory, nu, chrono, in_order}
use nu_plugin_dns.Tests.Questions.{config}
use nu_plugin_dns.Tests.Messages.{message, supported, message-IsReadable}
use nu_plugin_dns.Tests.Clients.{net, two_clients, tasks, made_both}

abbrev first : List (Item String) → Res String String
first [] = err "no response"
first (response r ∷ _) = ok r
first (failure _ ∷ _) = err "failed"

-- Every question is request 1, which the validating client answers.
abbrev pub host : Host hickory
host = record {
  network = net;
  order = little;
  chrono = chrono;
  iteration = in_order;
  request_for = λ name class type. 1;
  first_answer = first;
  into_message = λ r. message supported;
  to_bytes = λ m. some (0 ∷ 1 ∷ []);
  arrange = reverse;
  mpsc_channel = λ n. if leb 1 n && leb n max_permits then ok tt else panic "no such channel";
  with_capacity = λ n. if ltb (n * 56) (2 ^ 63) then ok tt else panic "capacity overflow";
  value_size = 56;
  show_addr = λ addr. addr.ip <> ":" <> show_ℕ addr.port;
}

unfit_lem : (n : ℕ) → IsUnfit n → host.mpsc_channel n ≡ panic "no such channel"
unfit_lem n (inl none_at_all) = ground arith
unfit_lem n (inr too_many) = ground arith

pub host-IsLawful : IsLawful host
host-IsLawful = record {
  first_response = λ r rest. refl;
  first_failure = λ e rest. ("failed", refl);
  first_none = ("no response", refl);
  arrange-Perm = λ rs. reverse_perm rs;
  mpsc_channel-ok = λ n some few. ground arith;
  mpsc_channel-panic = λ n unfit. ("no such channel", unfit_lem n unfit);
  with_capacity-ok = λ n small. ground arith;
}

pub can_be_shown : (cfg : Config hickory) (r : String) → CanBeShown nu host cfg r
can_be_shown cfg r = ((0 ∷ 1 ∷ [], refl), message-IsReadable cfg supported, (tt, (tt, tt)))

was_made : (cfg : Config hickory) → WasMade nu host cfg two_clients
was_made cfg = (config, tasks, made_both)

abbrev pub in_time : ℕ → Bool
in_time i = false

query-HasOutcome_example :
    HasOutcome nu host config
      (query nu host config (string_value "example.com") two_clients in_time)
query-HasOutcome_example =
    query-HasOutcome nu host config host-IsLawful parsers-HasQuietParsers two_clients
      (was_made config) in_time (string_value "example.com")

abbrev replied : Succeeds (query nu host config (string_value "example.com") two_clients in_time)
replied =
    query-Succeeds nu host config host-IsLawful parsers-HasQuietParsers (can_be_shown config)
      two_clients (was_made config) in_time (string_value "example.com")

query-IsAnswered_example :
    IsRefused nu host config (string_value "example.com") replied.0
    ⊎ IsAnswered nu host config two_clients in_time (string_value "example.com") replied.0
query-IsAnswered_example =
    query-IsAnswered nu host config host-IsLawful two_clients in_time (string_value "example.com")
      {rs = replied.0} replied.1
