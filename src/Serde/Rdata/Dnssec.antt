-- ===== src/Serde/Rdata/Dnssec.antt =====
-- The DNSSEC arms of `RData::into_value` in src/dns/serde.rs, with `parse_ds` and `parse_dnskey`.
pub mod Tidy
use nu_plugin_dns.Prelude.{ℕ, pos, as_i64, true, false, String, List, [], ◌∷◌, map, ok, ◌>>=◌}
use nu_plugin_dns.Prelude.Outcome.{Res}
use nu_plugin_dns.Nu.{Value, Span, LabeledError, bool_value, int_value, string_value, binary_value}
use nu_plugin_dns.Nu.{list_value, record_value}
use nu_plugin_dns.Hickory.Rdata.Dnssec.{
  DigestType, Ds, Dnskey, KeyTrust, KeyUsage, KeyProtocol, Key, Nsec, Nsec3HashAlgorithm, Nsec3,
  Nsec3param, Sig, Tsig, DnssecRdata,
}
use nu_plugin_dns.Serde.Util.{Chrono, sec_to_duration, sec_to_date}

unfoldable pub digest_type : DigestType → String
digest_type DigestType.sha1 = "SHA-1"
digest_type DigestType.sha256 = "SHA-256"
digest_type DigestType.gostr34_11_94 = "GOST R 34.11-94"
digest_type DigestType.sha384 = "SHA-384"
digest_type DigestType.sha512 = "SHA-512"
digest_type DigestType.ed25519 = "ED25519"
digest_type DigestType.other = "unknown"

unfoldable pub parse_ds : Ds → Value
unfolding digest_type
parse_ds ds = record_value (
    ("key_tag", int_value (pos ds.key_tag))
    ∷ ("algorithm", string_value ds.algorithm)
    ∷ ("digest_type", string_value (digest_type ds.digest_type))
    ∷ ("digest", binary_value ds.digest)
    ∷ [])

unfoldable pub parse_dnskey : Dnskey → Value
parse_dnskey dnskey = record_value (
    ("zone_key", bool_value dnskey.zone_key)
    ∷ ("secure_entry_point", bool_value dnskey.secure_entry_point)
    ∷ ("revoke", bool_value dnskey.revoke)
    ∷ ("algorithm", string_value dnskey.algorithm)
    ∷ ("public_key", binary_value dnskey.public_key)
    ∷ [])

-- Is authentication prohibited, and is confidentiality?
unfoldable pub key_prohibitions : KeyTrust → Value × Value
key_prohibitions KeyTrust.not_auth = (bool_value true, bool_value false)
key_prohibitions KeyTrust.not_private = (bool_value false, bool_value true)
key_prohibitions KeyTrust.auth_or_private = (bool_value false, bool_value false)
key_prohibitions KeyTrust.do_not_trust = (bool_value true, bool_value true)

unfoldable pub key_name_type : KeyUsage → String
key_name_type KeyUsage.host = "host"
key_name_type KeyUsage.zone = "zone"
key_name_type KeyUsage.entity = "entity"
key_name_type KeyUsage.reserved = "reserved"

unfoldable pub key_protocol : KeyProtocol → Value
key_protocol KeyProtocol.reserved = string_value "RESERVED"
key_protocol KeyProtocol.tls = string_value "TLS"
key_protocol KeyProtocol.email = string_value "EMAIL"
key_protocol KeyProtocol.dnssec = string_value "DNSSEC"
key_protocol KeyProtocol.ipsec = string_value "IPSEC"
key_protocol (KeyProtocol.other code) = int_value (pos code)
key_protocol KeyProtocol.all = string_value "ALL"

unfoldable pub key_value : Key → Value
unfolding key_prohibitions key_name_type key_protocol
key_value key =
    let (authentication, confidentiality) = key_prohibitions key.key_trust in
    record_value (
      (
        "key_type",
        record_value (
            ("authentication_prohibited", authentication)
            ∷ ("confidentiality_prohibited", confidentiality)
            ∷ []),
      )
      ∷ ("key_name_type", string_value (key_name_type key.key_usage))
      ∷ (
        "signatory",
        record_value (
            ("zone", bool_value key.signatory.zone)
            ∷ ("strong", bool_value key.signatory.strong)
            ∷ ("unique", bool_value key.signatory.unique)
            ∷ ("general", bool_value key.signatory.general)
            ∷ []),
      )
      ∷ ("protocol", key_protocol key.protocol)
      ∷ ("algorithm", string_value key.algorithm)
      ∷ ("public_key", binary_value key.public_key)
      ∷ [])

unfoldable pub nsec_value : Nsec → Value
nsec_value nsec = record_value (
    ("next_domain_name", string_value nsec.next_domain_name)
    ∷ ("types", list_value (map string_value nsec.type_bit_maps))
    ∷ [])

unfoldable pub hash_algorithm : Nsec3HashAlgorithm → String
hash_algorithm Nsec3HashAlgorithm.sha1 = "SHA-1"

unfoldable pub nsec3_value : Nsec3 → Value
unfolding hash_algorithm
nsec3_value nsec3 = record_value (
    ("hash_algorithm", string_value (hash_algorithm nsec3.hash_algorithm))
    ∷ ("opt_out", bool_value nsec3.opt_out)
    ∷ ("iterations", int_value (pos nsec3.iterations))
    ∷ ("salt", binary_value nsec3.salt)
    ∷ ("next_hashed_owner_name", binary_value nsec3.next_hashed_owner_name)
    ∷ ("types", list_value (map string_value nsec3.type_bit_maps))
    ∷ [])

unfoldable pub nsec3param_value : Nsec3param → Value
unfolding hash_algorithm
nsec3param_value nsec3param = record_value (
    ("hash_algorithm", string_value (hash_algorithm nsec3param.hash_algorithm))
    ∷ ("opt_out", bool_value nsec3param.opt_out)
    ∷ ("iterations", int_value (pos nsec3param.iterations))
    ∷ ("salt", binary_value nsec3param.salt)
    ∷ ("flags", int_value (pos nsec3param.flags))
    ∷ [])

unfoldable pub dnssec_unknown_value : ℕ → List ℕ → Value
dnssec_unknown_value code rdata =
    record_value (("code", int_value (pos code)) ∷ ("rdata", binary_value rdata) ∷ [])

module _ (C : Chrono) where
  unfoldable pub sig_value : Sig → Res LabeledError Value
  sig_value sig = do
    sig_expiration ← sec_to_date C (pos sig.sig_expiration) Span.unknown
    sig_inception ← sec_to_date C (pos sig.sig_inception) Span.unknown
    ok (
        record_value (
          ("type_covered", string_value sig.type_covered)
          ∷ ("algorithm", string_value sig.algorithm)
          ∷ ("num_labels", int_value (pos sig.num_labels))
          ∷ ("original_ttl", sec_to_duration sig.original_ttl)
          ∷ ("signature_expiration", sig_expiration)
          ∷ ("signature_inception", sig_inception)
          ∷ ("key_tag", int_value (pos sig.key_tag))
          ∷ ("signer_name", string_value sig.signer_name)
          ∷ ("signature", binary_value sig.sig)
          ∷ []))

  unfoldable pub tsig_value : Tsig → Res LabeledError Value
  tsig_value tsig = do
    time ← sec_to_date C (as_i64 tsig.time) Span.unknown
    ok (
        record_value (
          ("algorithm", string_value tsig.algorithm)
          ∷ ("time", time)
          ∷ ("fudge", int_value (pos tsig.fudge))
          ∷ ("mac", binary_value tsig.mac)
          ∷ []))

  unfoldable pub dnssec_value : DnssecRdata → Res LabeledError Value
  dnssec_value (DnssecRdata.dnskey dnskey) = ok (parse_dnskey dnskey)
  dnssec_value (DnssecRdata.cdnskey cdnskey) = ok (parse_dnskey cdnskey)
  dnssec_value (DnssecRdata.ds ds) = ok (parse_ds ds)
  dnssec_value (DnssecRdata.cds cds) = ok (parse_ds cds)
  dnssec_value (DnssecRdata.key key) = ok (key_value key)
  dnssec_value (DnssecRdata.nsec nsec) = ok (nsec_value nsec)
  dnssec_value (DnssecRdata.nsec3 nsec3) = ok (nsec3_value nsec3)
  dnssec_value (DnssecRdata.nsec3param nsec3param) = ok (nsec3param_value nsec3param)
  dnssec_value (DnssecRdata.sig sig) = sig_value sig
  dnssec_value (DnssecRdata.tsig tsig) = tsig_value tsig
  dnssec_value (DnssecRdata.unknown code rdata) = ok (dnssec_unknown_value code rdata)
  dnssec_value (DnssecRdata.other text) = ok (string_value text)
