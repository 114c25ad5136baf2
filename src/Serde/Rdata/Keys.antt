-- ===== src/Serde/Rdata/Keys.antt =====
-- The arms of `RData::into_value` in src/dns/serde.rs for SSHFP and TLSA.
use nu_plugin_dns.Prelude.{pos, [], ◌∷◌}
use nu_plugin_dns.Nu.{Value, int_value, string_value, binary_value, record_value}
use nu_plugin_dns.Hickory.Rdata.{SshfpAlgorithm, FingerprintType, Sshfp}
use nu_plugin_dns.Hickory.Rdata.{CertUsage, Selector, Matching, Tlsa}

unfoldable pub sshfp_algorithm : SshfpAlgorithm → Value
sshfp_algorithm SshfpAlgorithm.reserved = string_value "reserved"
sshfp_algorithm SshfpAlgorithm.rsa = string_value "RSA"
sshfp_algorithm SshfpAlgorithm.dsa = string_value "DSA"
sshfp_algorithm SshfpAlgorithm.ecdsa = string_value "ECDSA"
sshfp_algorithm SshfpAlgorithm.ed25519 = string_value "Ed25519"
sshfp_algorithm SshfpAlgorithm.ed448 = string_value "Ed448"
sshfp_algorithm (SshfpAlgorithm.unassigned code) = int_value (pos code)

unfoldable pub fingerprint_type : FingerprintType → Value
fingerprint_type FingerprintType.reserved = string_value "reserved"
fingerprint_type FingerprintType.sha1 = string_value "SHA-1"
fingerprint_type FingerprintType.sha256 = string_value "SHA-256"
fingerprint_type (FingerprintType.unassigned code) = int_value (pos code)

unfoldable pub sshfp_value : Sshfp → Value
unfolding sshfp_algorithm fingerprint_type
sshfp_value sshfp = record_value (
    ("algorithm", sshfp_algorithm sshfp.algorithm)
    ∷ ("fingerprint_type", fingerprint_type sshfp.fingerprint_type)
    ∷ ("fingerprint", binary_value sshfp.fingerprint)
    ∷ [])

unfoldable pub cert_usage : CertUsage → Value
cert_usage CertUsage.ca = string_value "CA"
cert_usage CertUsage.service = string_value "service"
cert_usage CertUsage.trust_anchor = string_value "trust anchor"
cert_usage CertUsage.domain_issued = string_value "domain issued"
cert_usage CertUsage.private = string_value "private"
cert_usage (CertUsage.unassigned code) = int_value (pos code)

unfoldable pub selector : Selector → Value
selector Selector.full = string_value "full"
selector Selector.spki = string_value "spki"
selector Selector.private = string_value "private"
selector (Selector.unassigned code) = int_value (pos code)

unfoldable pub matching : Matching → Value
matching Matching.raw = string_value "raw"
matching Matching.sha256 = string_value "SHA-256"
matching Matching.sha512 = string_value "SHA-512"
matching Matching.private = string_value "private"
matching (Matching.unassigned code) = int_value (pos code)

unfoldable pub tlsa_value : Tlsa → Value
unfolding cert_usage selector matching
tlsa_value tlsa = record_value (
    ("cert_usage", cert_usage tlsa.cert_usage)
    ∷ ("selector", selector tlsa.selector)
    ∷ ("matching", matching tlsa.matching)
    ∷ ("cert_data", binary_value tlsa.cert_data)
    ∷ [])
