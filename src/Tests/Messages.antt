-- ===== src/Tests/Messages.antt =====
-- Messages of src/dns/serde.rs as values, at concrete inputs.
use nu_plugin_dns.Prelude.{pos, [], ◌∷◌, ◌++◌, true, false, some}
use nu_plugin_dns.Nu.{spanned, Span}
use nu_plugin_dns.Prelude.{arith, ok, panic, Succeeds, ◌≡◌, refl}
use nu_plugin_dns.Config.{Config}
use nu_plugin_dns.Hickory.Message as Wire
use nu_plugin_dns.Hickory.Message.{Code, Rdata}
use nu_plugin_dns.Hickory.Rdata.Dnssec.{DnssecRdata, Sig}
use nu_plugin_dns.Hickory.Rdata.Edns.{Edns, EdnsCode, EdnsOption, Opt}
use nu_plugin_dns.Serde.Rdata.Laws.{IsReadable}
use nu_plugin_dns.Serde.Message.{message_value}
use nu_plugin_dns.Serde.Message.Laws.{
  IsReadableMessage, Shows, message_value-Succeeds, message_value-panic, message_value-Shows,
}
use nu_plugin_dns.Serde.Tidy.{IsTidy}
use nu_plugin_dns.Serde.Message.ReadBack.{read_outline, outline_of, read_outline-message_value}
use nu_plugin_dns.Serde.Message.Tidy.{HaveParams, message_value-IsTidy}
use nu_plugin_dns.Std.HashMap.{lookup}
use nu_plugin_dns.Hickory.Rdata.{SvcParamValue}
use nu_plugin_dns.Tests.Data.{hickory, chrono, in_order, in_order-IsIteration}
use nu_plugin_dns.Tests.Questions.{config}

abbrev sig : Sig
sig = record {
  type_covered = "A";
  algorithm = "ECDSAP256SHA256";
  num_labels = 2;
  original_ttl = 300;
  sig_expiration = 1700000000;
  sig_inception = 1690000000;
  key_tag = 34505;
  signer_name = "example.com.";
  sig = 1 ∷ 2 ∷ [];
}

abbrev signature : Rdata
signature = Rdata.dnssec (DnssecRdata.sig sig)

signature-IsReadable : IsReadable chrono signature
signature-IsReadable = ((pos 1700000000, refl), (pos 1690000000, refl))

-- The algorithms that a resolver understands, and an unknown option.
abbrev pub supported : Opt
supported =
    (EdnsCode.dau, EdnsOption.dau ("RSASHA256" ∷ []))
    ∷ (EdnsCode.unknown 26946, EdnsOption.unknown 26946 (1 ∷ []))
    ∷ []

abbrev edns_of : Opt → Edns
edns_of o = record {
  rcode_high = 0;
  version = 0;
  dnssec_ok = true;
  max_payload = 1232;
  options = o;
}

-- A client subnet behind them.
abbrev with_subnet : Opt
with_subnet = supported ++ (EdnsCode.subnet, EdnsOption.other) ∷ []

abbrev answer : Wire.Record hickory
answer = record {
  name_labels = "example.com.";
  rr_type = 1;
  dns_class = 1;
  ttl = 300;
  rdata = some (Rdata.other "93.184.216.34");
}

abbrev signed : Wire.Record hickory
signed = record {
  name_labels = "example.com.";
  rr_type = 46;
  dns_class = 1;
  ttl = 300;
  rdata = some signature;
}

abbrev header : Wire.Header
header = record {
  id = 4711;
  message_type = record { text = "RESPONSE"; number = 1 };
  op_code = record { text = "QUERY"; number = 0 };
  authoritative = false;
  truncated = false;
  recursion_desired = true;
  recursion_available = true;
  authentic_data = true;
  response_code = record { text = "No Error"; number = 0 };
  query_count = 1;
  answer_count = 2;
  name_server_count = 0;
  additional_count = 1;
}

abbrev pub message : Opt → Wire.Message hickory
message o = record {
  header = header;
  queries = record { name = "example.com."; query_type = 1; query_class = 1 } ∷ [];
  answers = answer ∷ signed ∷ [];
  name_servers = [];
  additionals = answer ∷ [];
  edns = some (edns_of o);
}

pub message-IsReadable :
    (cfg : Config hickory) (o : Opt) → IsReadableMessage cfg chrono in_order (message o)
message-IsReadable cfg o = record {
  answers_ok = (tt, (signature-IsReadable, tt));
  name_servers_ok = tt;
  additionals_ok = (tt, tt);
}

message_value-Succeeds_example :
    Succeeds (message_value config chrono in_order (message supported) (0 ∷ 1 ∷ []))
message_value-Succeeds_example =
    message_value-Succeeds config chrono in_order (message supported) (0 ∷ 1 ∷ [])
      (message-IsReadable config supported) (tt, (tt, tt))

message_value-panic_example :
    message_value config chrono in_order (message with_subnet) (0 ∷ 1 ∷ [])
    ≡ panic "not yet implemented"
message_value-panic_example =
    message_value-panic config chrono in_order (message with_subnet) (0 ∷ 1 ∷ [])
      (edns_of with_subnet) supported [] EdnsCode.subnet (message-IsReadable config with_subnet)
      refl refl (tt, (tt, tt))

abbrev has_value : Succeeds (message_value config chrono in_order (message supported) (0 ∷ 1 ∷ []))
has_value =
    message_value-Succeeds config chrono in_order (message supported) (0 ∷ 1 ∷ [])
      (message-IsReadable config supported) (tt, (tt, tt))

message_value-Shows_example :
    Shows config chrono in_order (message supported) (0 ∷ 1 ∷ []) has_value.0
message_value-Shows_example =
    message_value-Shows config chrono in_order (message supported) (0 ∷ 1 ∷ []) has_value.1

abbrev with_codes : Config hickory
with_codes = record config { code = spanned true Span.unknown }

abbrev has_coded_value :
    Succeeds (message_value with_codes chrono in_order (message supported) (0 ∷ 1 ∷ []))
has_coded_value =
    message_value-Succeeds with_codes chrono in_order (message supported) (0 ∷ 1 ∷ [])
      (message-IsReadable with_codes supported) (tt, (tt, tt))

read_outline-message_value_example :
    read_outline has_coded_value.0 ≡ ok (outline_of (message supported))
read_outline-message_value_example =
    read_outline-message_value with_codes chrono in_order refl (message supported) (0 ∷ 1 ∷ [])
      ((omega arith, (omega arith, tt)), tt, (omega arith, tt)) has_coded_value.1

-- A resource record of HTTPS with two parameters, and an option that comes twice.
abbrev service : Wire.Record hickory
service = record {
  name_labels = "example.com.";
  rr_type = 65;
  dns_class = 1;
  ttl = 300;
  rdata = some (
      Rdata.https (record {
        svc_priority = 1;
        target_name = ".";
        svc_params =
            ("alpn", SvcParamValue.alpn ("h2" ∷ "h3" ∷ []))
            ∷ ("port", SvcParamValue.port 8443)
            ∷ [];
      }));
}

abbrev twice : Opt
twice = supported ++ (EdnsCode.dau, EdnsOption.dau ("ED25519" ∷ [])) ∷ []

abbrev with_service : Wire.Message hickory
with_service = record (message twice) { answers = service ∷ signed ∷ [] }

with_service-IsReadable : IsReadableMessage config chrono in_order with_service
with_service-IsReadable = record {
  answers_ok = (tt, (signature-IsReadable, tt));
  name_servers_ok = tt;
  additionals_ok = (tt, tt);
}

abbrev service_value : Succeeds (message_value config chrono in_order with_service (0 ∷ 1 ∷ []))
service_value =
    message_value-Succeeds config chrono in_order with_service (0 ∷ 1 ∷ []) with_service-IsReadable
      (tt, (tt, (tt, tt)))

params : HaveParams config chrono in_order in_order-IsIteration (service ∷ signed ∷ [])
unfolding lookup
params = ((refl, (refl, tt)), (tt, tt))

message_value-IsTidy_example : IsTidy service_value.0
message_value-IsTidy_example =
    message_value-IsTidy config chrono in_order in_order-IsIteration with_service (0 ∷ 1 ∷ [])
      params tt (tt, tt) service_value.1
