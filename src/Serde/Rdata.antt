-- ===== src/Serde/Rdata.antt =====
-- `RData::into_value` of src/dns/serde.rs, one function for each arm of its match.
pub mod Plain
pub mod Keys
pub mod Dnssec
pub mod Options
pub mod Laws
pub mod Tidy
use nu_plugin_dns.Prelude.{ℕ, pos, List, [], ◌∷◌, map, ok}
use nu_plugin_dns.Prelude.Outcome.{Res}
use nu_plugin_dns.Nu.{Value, LabeledError, int_value, string_value, binary_value, list_value}
use nu_plugin_dns.Nu.{record_value}
use nu_plugin_dns.Std.HashMap.{Iteration}
use nu_plugin_dns.Hickory.Message.{Rdata}
use nu_plugin_dns.Serde.Util.{Chrono, string_or_binary}
use nu_plugin_dns.Serde.Rdata.Plain.{caa_value, hinfo_value, svcb_value, mx_value, naptr_value}
use nu_plugin_dns.Serde.Rdata.Plain.{soa_value, srv_value}
use nu_plugin_dns.Serde.Rdata.Keys.{sshfp_value, tlsa_value}
use nu_plugin_dns.Serde.Rdata.Dnssec.{dnssec_value}
use nu_plugin_dns.Serde.Rdata.Options.{opt_value}

unfoldable pub unknown_value : ℕ → List ℕ → Value
unknown_value code rdata =
    record_value (("code", int_value (pos code)) ∷ ("rdata", binary_value rdata) ∷ [])

unfoldable pub rdata_value : Chrono → Iteration Value → Rdata → Res LabeledError Value
rdata_value C I (Rdata.caa caa) = ok (caa_value I caa)
rdata_value C I (Rdata.hinfo hinfo) = ok (hinfo_value hinfo)
rdata_value C I (Rdata.https svcb) = ok (svcb_value svcb)
rdata_value C I (Rdata.svcb svcb) = ok (svcb_value svcb)
rdata_value C I (Rdata.mx mx) = ok (mx_value mx)
rdata_value C I (Rdata.naptr naptr) = ok (naptr_value naptr)
rdata_value C I (Rdata.null data_) = ok (string_or_binary data_)
rdata_value C I (Rdata.ns name) = ok (string_value name)
rdata_value C I (Rdata.openpgpkey key) = ok (binary_value key)
rdata_value C I (Rdata.opt opt) = opt_value I opt
rdata_value C I (Rdata.ptr name) = ok (string_value name)
rdata_value C I (Rdata.soa soa) = ok (soa_value soa)
rdata_value C I (Rdata.srv srv) = ok (srv_value srv)
rdata_value C I (Rdata.sshfp sshfp) = ok (sshfp_value sshfp)
rdata_value C I (Rdata.tlsa tlsa) = ok (tlsa_value tlsa)
rdata_value C I (Rdata.txt parts) = ok (list_value (map string_or_binary parts))
rdata_value C I (Rdata.dnssec rdata) = dnssec_value C rdata
rdata_value C I (Rdata.unknown code rdata) = ok (unknown_value code rdata)
rdata_value C I (Rdata.other text) = ok (string_value text)
