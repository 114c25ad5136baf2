-- ===== src/Serde/Rdata/Plain/Tidy.antt =====
-- The values of plain record data and of SSHFP and TLSA in src/dns/serde.rs name no column twice.
use nu_plugin_dns.Prelude.{String, List, [], ◌∷◌, none, some, map, All, arith, ◌≡◌, refl, true, ℕ}
use nu_plugin_dns.Prelude.{eq_iff}
use nu_plugin_dns.Nu.{Value, record_value, list_value, to_columns}
use nu_plugin_dns.Nu.Protocol.{get}
use nu_plugin_dns.Std.HashMap.{Iteration, IsIteration, lookup}
use nu_plugin_dns.Hickory.Rdata.{
  CaaValue, Caa, Hinfo, SvcParamValue, Svcb, Naptr, SshfpAlgorithm, FingerprintType, Sshfp,
  CertUsage, Selector, Matching, Tlsa,
}
use nu_plugin_dns.Serde.Util.{string_or_binary}
use nu_plugin_dns.Serde.Tidy.{tidy, IsTidy, strings-IsTidy, string_or_binary-IsTidy, is_none}
use nu_plugin_dns.Serde.Tidy.Maps.{from_iter-IsTidy}
use nu_plugin_dns.Serde.Rdata.Plain.{
  parameter, caa_property, caa_value, hinfo_value, svc_param, svcb_value, naptr_value,
}
use nu_plugin_dns.Serde.Rdata.Keys.{
  sshfp_algorithm, fingerprint_type, sshfp_value, cert_usage, selector, matching, tlsa_value,
}

-- No key stands twice.
abbrev pub HasDistinctKeys : {A : Type 0} → List (String × A) → Type 0
HasDistinctKeys [] = Unit
HasDistinctKeys ((k, _) ∷ r) = (lookup k r ≡ none) × HasDistinctKeys r

module _ (I : Iteration Value) (each : IsIteration I) where
  parameters-All : (ps : List (String × String)) → All (λ e. IsTidy e.1) (map parameter ps)
  unfolding parameter tidy
  parameters-All [] = tt
  parameters-All ((k, v) ∷ ps) = (refl, parameters-All ps)

  caa_property-IsTidy : (v : CaaValue) → IsTidy (caa_property I v)
  unfolding caa_property tidy
  caa_property-IsTidy (CaaValue.issuer none ps) =
      ground (arith, from_iter-IsTidy I each (map parameter ps) (parameters-All ps))
  caa_property-IsTidy (CaaValue.issuer (some n) ps) =
      ground (arith, from_iter-IsTidy I each (map parameter ps) (parameters-All ps))
  caa_property-IsTidy (CaaValue.url url) = refl
  caa_property-IsTidy (CaaValue.unknown bytes) = refl

  pub caa_value-IsTidy : (caa : Caa) → IsTidy (caa_value I caa)
  unfolding caa_value tidy
  caa_value-IsTidy caa = ground (arith, caa_property-IsTidy caa.value)

pub hinfo_value-IsTidy : (hinfo : Hinfo) → IsTidy (hinfo_value hinfo)
unfolding hinfo_value tidy
hinfo_value-IsTidy hinfo =
    ground (arith, string_or_binary-IsTidy hinfo.cpu, string_or_binary-IsTidy hinfo.os)

pub naptr_value-IsTidy : (naptr : Naptr) → IsTidy (naptr_value naptr)
unfolding naptr_value tidy
naptr_value-IsTidy naptr = ground (
  arith,
  string_or_binary-IsTidy naptr.flags,
  string_or_binary-IsTidy naptr.services,
  string_or_binary-IsTidy naptr.regexp,
)

svc_param-IsTidy : (p : SvcParamValue) → IsTidy (svc_param p)
unfolding svc_param tidy
svc_param-IsTidy (SvcParamValue.mandatory keys) = strings-IsTidy keys
svc_param-IsTidy (SvcParamValue.alpn names) = strings-IsTidy names
svc_param-IsTidy (SvcParamValue.ipv4_hint ips) = strings-IsTidy ips
svc_param-IsTidy (SvcParamValue.ipv6_hint ips) = strings-IsTidy ips
svc_param-IsTidy _ = refl

params-is_free :
    (k : String) (ps : List (String × SvcParamValue))
    → lookup k ps ≡ none
    → is_none (get k (to_columns (map (λ p. (p.0, svc_param p.1)) ps))) ≡ true
unfolding lookup
params-is_free k [] h = refl
params-is_free k ((j, v) ∷ ps) h = ground (arith, eq_iff j k, params-is_free k ps)

params-IsTidy :
    (ps : List (String × SvcParamValue))
    → HasDistinctKeys ps
    → IsTidy (record_value (map (λ p. (p.0, svc_param p.1)) ps))
unfolding tidy
params-IsTidy [] h = refl
params-IsTidy ((k, v) ∷ ps) (h, hs) =
    ground (arith, params-is_free k ps h, svc_param-IsTidy v, params-IsTidy ps hs)

pub svcb_value-IsTidy : (svcb : Svcb) → HasDistinctKeys svcb.svc_params → IsTidy (svcb_value svcb)
unfolding svcb_value tidy
svcb_value-IsTidy svcb h = ground (arith, params-IsTidy svcb.svc_params h)

sshfp_algorithm-IsTidy : (a : SshfpAlgorithm) → IsTidy (sshfp_algorithm a)
unfolding sshfp_algorithm tidy
sshfp_algorithm-IsTidy SshfpAlgorithm.rsa = refl
sshfp_algorithm-IsTidy _ = refl

fingerprint_type-IsTidy : (t : FingerprintType) → IsTidy (fingerprint_type t)
unfolding fingerprint_type tidy
fingerprint_type-IsTidy FingerprintType.sha1 = refl
fingerprint_type-IsTidy _ = refl

pub sshfp_value-IsTidy : (sshfp : Sshfp) → IsTidy (sshfp_value sshfp)
unfolding sshfp_value tidy
sshfp_value-IsTidy sshfp =
    ground (
      arith,
      sshfp_algorithm-IsTidy sshfp.algorithm,
      fingerprint_type-IsTidy sshfp.fingerprint_type,
    )

cert_usage-IsTidy : (u : CertUsage) → IsTidy (cert_usage u)
unfolding cert_usage tidy
cert_usage-IsTidy CertUsage.ca = refl
cert_usage-IsTidy _ = refl

selector-IsTidy : (s : Selector) → IsTidy (selector s)
unfolding selector tidy
selector-IsTidy Selector.full = refl
selector-IsTidy _ = refl

matching-IsTidy : (m : Matching) → IsTidy (matching m)
unfolding matching tidy
matching-IsTidy Matching.raw = refl
matching-IsTidy _ = refl

pub tlsa_value-IsTidy : (tlsa : Tlsa) → IsTidy (tlsa_value tlsa)
unfolding tlsa_value tidy
tlsa_value-IsTidy tlsa = ground (
  arith,
  cert_usage-IsTidy tlsa.cert_usage,
  selector-IsTidy tlsa.selector,
  matching-IsTidy tlsa.matching,
)

pub parts-IsTidy : (parts : List (List ℕ)) → IsTidy (list_value (map string_or_binary parts))
unfolding tidy
parts-IsTidy [] = refl
parts-IsTidy (p ∷ parts) = ground (arith, string_or_binary-IsTidy p, parts-IsTidy parts)
