-- ===== src/Serde/Rdata/Options.antt =====
-- `Opt` and `Edns` of src/dns/serde.rs. The arm `_ => todo!()` on an option is a panic.
pub mod Tidy
pub mod Laws
use nu_plugin_dns.Prelude.{pos, String, ◌<>◌, [], ◌∷◌, map, ok, panic, collect_map, ◌>>=◌}
use nu_plugin_dns.Prelude.Outcome.{Res}
use nu_plugin_dns.Nu.{Value, Span, LabeledError, bool_value, int_value, string_value, list_value}
use nu_plugin_dns.Nu.{record_value}
use nu_plugin_dns.Std.Decimal.{show_ℕ}
use nu_plugin_dns.Std.HashMap.{Iteration, from_iter}
use nu_plugin_dns.Hickory.Rdata.Edns.{EdnsCode, EdnsOption, Opt, Edns}
use nu_plugin_dns.Serde.Util.{string_or_binary}

unfoldable pub code_name : EdnsCode → String
code_name EdnsCode.zero = "zero"
code_name EdnsCode.llq = "LLQ"
code_name EdnsCode.ul = "UL"
code_name EdnsCode.nsid = "NSID"
code_name EdnsCode.dau = "DAU"
code_name EdnsCode.dhu = "DHU"
code_name EdnsCode.n3u = "N3U"
code_name EdnsCode.subnet = "subnet"
code_name EdnsCode.expire = "EXPIRE"
code_name EdnsCode.cookie = "cookie"
code_name EdnsCode.keepalive = "keepalive"
code_name EdnsCode.padding = "padding"
code_name EdnsCode.chain = "chain"
code_name (EdnsCode.unknown code) = "unknown(" <> show_ℕ code <> ")"
code_name (EdnsCode.other text) = "unknown Edns: " <> text

unfoldable pub option_value : EdnsOption → Res LabeledError Value
option_value (EdnsOption.dau supported) = ok (list_value (map string_value supported))
option_value (EdnsOption.dhu supported) = ok (list_value (map string_value supported))
option_value (EdnsOption.n3u supported) = ok (list_value (map string_value supported))
option_value (EdnsOption.unknown code val) =
    ok (record_value (("code", int_value (pos code)) ∷ ("data", string_or_binary val) ∷ []))
option_value EdnsOption.other = panic "not yet implemented"

unfoldable pub entry : EdnsCode × EdnsOption → Res LabeledError (String × Value)
unfolding option_value
entry (code, option) = option_value option >>= λ v. ok (code_name code, v)

-- `Opt::into_value`
unfoldable pub opt_value : Iteration Value → Opt → Res LabeledError Value
opt_value I opt = do
  entries ← collect_map entry opt
  ok (record_value (I.arrange (from_iter entries)))

-- `Edns::into_value`; `max_payload` is a u16.
unfoldable pub edns_value : Iteration Value → Edns → Res LabeledError Value
edns_value I edns = do
  opts ← opt_value I edns.options
  ok (
      record_value (
        ("rcode_high", int_value (pos edns.rcode_high))
        ∷ ("version", int_value (pos edns.version))
        ∷ ("dnssec_ok", bool_value edns.dnssec_ok)
        ∷ ("max_payload", Value.filesize (pos edns.max_payload) Span.unknown)
        ∷ ("opts", opts)
        ∷ []))
