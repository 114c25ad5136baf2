-- ===== src/Serde/Rdata/Plain.antt =====
-- The arms of `RData::into_value` in src/dns/serde.rs for CAA, HINFO, HTTPS and SVCB, MX, NAPTR, SOA
-- and SRV.
pub mod Tidy
use nu_plugin_dns.Prelude.{pos, as_u64, String, [], ◌∷◌, map, Option, none, some}
use nu_plugin_dns.Nu.{Value, bool_value, int_value, string_value, binary_value, nothing_value}
use nu_plugin_dns.Nu.{list_value, record_value, zip_record}
use nu_plugin_dns.Std.HashMap.{Iteration, from_iter}
use nu_plugin_dns.Hickory.Rdata.{CaaValue, Caa, Hinfo, SvcParamValue, Svcb, Mx, Naptr, Soa, Srv}
use nu_plugin_dns.Serde.Util.{string_or_binary, sec_to_duration}

optional_string : Option String → Value
optional_string none = nothing_value
optional_string (some name) = string_value name

unfoldable pub parameter : String × String → String × Value
parameter (key, value) = (key, string_value value)

unfoldable pub caa_property : Iteration Value → CaaValue → Value
unfolding optional_string parameter
caa_property I (CaaValue.issuer issuer_name key_values) =
    zip_record ("issuer_name" ∷ "parameters" ∷ []) (
      optional_string issuer_name
      ∷ record_value (I.arrange (from_iter (map parameter key_values)))
      ∷ [])
caa_property I (CaaValue.url url) = string_value url
caa_property I (CaaValue.unknown bytes) = binary_value bytes

unfoldable pub caa_value : Iteration Value → Caa → Value
unfolding caa_property
caa_value I caa = record_value (
    ("issuer_critical", bool_value caa.issuer_critical)
    ∷ ("tag", string_value caa.tag)
    ∷ ("value", caa_property I caa.value)
    ∷ [])

unfoldable pub hinfo_value : Hinfo → Value
hinfo_value hinfo =
    record_value (("cpu", string_or_binary hinfo.cpu) ∷ ("os", string_or_binary hinfo.os) ∷ [])

unfoldable pub svc_param : SvcParamValue → Value
svc_param (SvcParamValue.mandatory keys) = list_value (map string_value keys)
svc_param (SvcParamValue.alpn names) = list_value (map string_value names)
svc_param (SvcParamValue.no_default_alpn text) = string_value text
svc_param (SvcParamValue.port port) = int_value (pos port)
svc_param (SvcParamValue.ipv4_hint ips) = list_value (map string_value ips)
svc_param (SvcParamValue.ech_config config) = binary_value config
svc_param (SvcParamValue.ipv6_hint ips) = list_value (map string_value ips)
svc_param (SvcParamValue.unknown bytes) = binary_value bytes

unfoldable pub svcb_value : Svcb → Value
unfolding svc_param
svcb_value svcb = record_value (
    ("svc_priority", int_value (pos svcb.svc_priority))
    ∷ ("target_name", string_value svcb.target_name)
    ∷ ("svc_params", record_value (map (λ p. (p.0, svc_param p.1)) svcb.svc_params))
    ∷ [])

unfoldable pub mx_value : Mx → Value
mx_value mx =
    record_value
      (("preference", int_value (pos mx.preference)) ∷ ("exchange", string_value mx.exchange) ∷ [])

unfoldable pub naptr_value : Naptr → Value
naptr_value naptr = record_value (
    ("order", int_value (pos naptr.order))
    ∷ ("preference", int_value (pos naptr.preference))
    ∷ ("flags", string_or_binary naptr.flags)
    ∷ ("services", string_or_binary naptr.services)
    ∷ ("regexp", string_or_binary naptr.regexp)
    ∷ ("replacement", string_value naptr.replacement)
    ∷ [])

unfoldable pub soa_value : Soa → Value
soa_value soa = record_value (
    ("mname", string_value soa.mname)
    ∷ ("rname", string_value soa.rname)
    ∷ ("serial", int_value (pos soa.serial))
    ∷ ("refresh", sec_to_duration (as_u64 soa.refresh))
    ∷ ("retry", sec_to_duration (as_u64 soa.retry))
    ∷ ("expire", sec_to_duration (as_u64 soa.expire))
    ∷ ("minimum", sec_to_duration soa.minimum)
    ∷ [])

unfoldable pub srv_value : Srv → Value
srv_value srv = record_value (
    ("priority", int_value (pos srv.priority))
    ∷ ("weight", int_value (pos srv.weight))
    ∷ ("port", int_value (pos srv.port))
    ∷ ("target", string_value srv.target)
    ∷ [])
