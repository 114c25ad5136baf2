-- ===== src/Serde/Rdata/Tidy.antt =====
-- The value of any record data in src/dns/serde.rs names no column twice.
use nu_plugin_dns.Prelude.{refl}
use nu_plugin_dns.Nu.{Value}
use nu_plugin_dns.Std.HashMap.{Iteration, IsIteration}
use nu_plugin_dns.Hickory.Message.{Rdata}
use nu_plugin_dns.Serde.Util.{Chrono, sec_to_duration}
use nu_plugin_dns.Serde.Tidy.{tidy, GivesTidy, string_or_binary-IsTidy}
use nu_plugin_dns.Serde.Rdata.{rdata_value, unknown_value}
use nu_plugin_dns.Serde.Rdata.Plain.{mx_value, soa_value, srv_value}
use nu_plugin_dns.Serde.Rdata.Plain.Tidy.{
  HasDistinctKeys, caa_value-IsTidy, hinfo_value-IsTidy, naptr_value-IsTidy, svcb_value-IsTidy,
  sshfp_value-IsTidy, tlsa_value-IsTidy, parts-IsTidy,
}
use nu_plugin_dns.Serde.Rdata.Dnssec.Tidy.{dnssec_value-GivesTidy}
use nu_plugin_dns.Serde.Rdata.Options.Tidy.{opt_value-GivesTidy}

-- The parameters of a service binding have distinct keys, as RFC 9460 asks of a record.
abbrev pub HasDistinctParams : Rdata → Type 0
HasDistinctParams (Rdata.https svcb) = HasDistinctKeys svcb.svc_params
HasDistinctParams (Rdata.svcb svcb) = HasDistinctKeys svcb.svc_params
HasDistinctParams _ = Unit

module _ (C : Chrono) (I : Iteration Value) (each : IsIteration I) where
  pub rdata_value-GivesTidy : (d : Rdata) → HasDistinctParams d → GivesTidy (rdata_value C I d)
  unfolding rdata_value unknown_value mx_value soa_value srv_value sec_to_duration tidy
  rdata_value-GivesTidy (Rdata.caa caa) h = caa_value-IsTidy I each caa
  rdata_value-GivesTidy (Rdata.hinfo hinfo) h = hinfo_value-IsTidy hinfo
  rdata_value-GivesTidy (Rdata.https svcb) h = svcb_value-IsTidy svcb h
  rdata_value-GivesTidy (Rdata.svcb svcb) h = svcb_value-IsTidy svcb h
  rdata_value-GivesTidy (Rdata.mx mx) h = refl
  rdata_value-GivesTidy (Rdata.naptr naptr) h = naptr_value-IsTidy naptr
  rdata_value-GivesTidy (Rdata.null data_) h = string_or_binary-IsTidy data_
  rdata_value-GivesTidy (Rdata.ns name) h = refl
  rdata_value-GivesTidy (Rdata.openpgpkey key) h = refl
  rdata_value-GivesTidy (Rdata.opt opt) h = opt_value-GivesTidy I each opt
  rdata_value-GivesTidy (Rdata.ptr name) h = refl
  rdata_value-GivesTidy (Rdata.soa soa) h = refl
  rdata_value-GivesTidy (Rdata.srv srv) h = refl
  rdata_value-GivesTidy (Rdata.sshfp sshfp) h = sshfp_value-IsTidy sshfp
  rdata_value-GivesTidy (Rdata.tlsa tlsa) h = tlsa_value-IsTidy tlsa
  rdata_value-GivesTidy (Rdata.txt parts) h = parts-IsTidy parts
  rdata_value-GivesTidy (Rdata.dnssec rdata) h = dnssec_value-GivesTidy C rdata
  rdata_value-GivesTidy (Rdata.unknown code rdata) h = refl
  rdata_value-GivesTidy (Rdata.other text) h = refl
